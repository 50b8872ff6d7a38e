-- ===== src/Key.antt =====
-- bin/nanocld/src/utils/key.rs: the keys under which objects and their statuses are stored.
pub mod Injective
use nanocl.Prelude.{
  ℕ, Text, codes, split, all, length, leb, ◌==◌, Bool, ◌&&◌, ◌||◌, Option, none, some, ◌∷◌, ◌++◌,
  if◌then◌else◌,
}
use nanocl.Io.{IoError, Result, ok, err, with_context, ErrorKind}
use nanocl.Process.{ProcessKind}
use nanocl.Http.{HttpResult, HttpError, bad_request}

unfoldable pub resolve_nsp : Option Text → Text
resolve_nsp none = codes "global"
resolve_nsp (some nsp) = nsp

unfoldable pub gen_key : Text → Text → Text
gen_key nsp name = name ++ b'.' ∷ nsp

abbrev pub is_ascii_alphanumeric : ℕ → Bool
is_ascii_alphanumeric c =
    (leb b'a' c && leb c b'z') || ((leb b'A' c && leb c b'Z') || (leb b'0' c && leb c b'9'))

abbrev pub is_name_char : ℕ → Bool
is_name_char c = is_ascii_alphanumeric c || (c == b'-' || c == b'_')

unfoldable pub validate_name : Text → HttpResult (Unit {0})
validate_name name =
    if all is_name_char name
    then HttpResult.ok tt
    else HttpResult.err (bad_request (codes "Vm image name " ++ (name ++ codes " is invalid")))

unfoldable pub ensure_kind : Text → Result (Unit {0})
ensure_kind kind =
    if length (split b'/' kind) == 2
    then ok tt
    else err (
        with_context ErrorKind.invalid_input (codes "Kind")
          (codes "must be of the form `domain.tld/kind`"))

unfoldable pub gen_kind_key : ProcessKind → Text → Option Text → Text
unfolding resolve_nsp gen_key
gen_kind_key ProcessKind.job name namespace = name
gen_kind_key ProcessKind.cargo name namespace = gen_key (resolve_nsp namespace) name
gen_kind_key ProcessKind.vm name namespace = gen_key (resolve_nsp namespace) name
