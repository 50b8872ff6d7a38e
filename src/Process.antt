-- ===== src/Process.antt =====
-- crates/nanocl_stubs/src/process.rs: processes, the containers that run for an object.
use nanocl.Prelude.{
  ℕ, Text, String, codes, match_text, ◌=ₜ◌, ◌≡◌, refl, Bool, Option, none, some, List, [], ◌∷◌,
  ◌++◌,
}
use nanocl.Io.{Result, ok, err, IoError, ErrorKind}

pub data ProcessKind : Type 0 where
  vm job cargo : ProcessKind

invalid_kind : Text → IoError
invalid_kind s = record {
  context = none;
  kind = ErrorKind.invalid_input;
  message = codes "Invalid process kind " ++ s;
}

abbrev kind_arms : List (String × Option ProcessKind)
kind_arms = ("vm", some vm) ∷ ("job", some job) ∷ ("cargo", some cargo) ∷ []

abbrev or_invalid : Text → Option ProcessKind → Result ProcessKind
or_invalid s none = err (invalid_kind s)
or_invalid s (some k) = ok k

unfoldable pub kind_from_str : Text → Result ProcessKind
unfolding invalid_kind
kind_from_str s = or_invalid s (match_text s kind_arms none)

unfoldable pub kind_to_string : ProcessKind → Text
kind_to_string vm = codes "vm"
kind_to_string job = codes "job"
kind_to_string cargo = codes "cargo"

-- An `i64` exit code: `negative n` is -(n + 1).
pub data ExitCode : Type 0 where
  natural : ℕ → ExitCode
  negative : ℕ → ExitCode

-- What Docker reports of a container's state, as far as the daemon reads it.
pub record ContainerState : Type 0 where
  pub restarting : Option Bool
  pub running : Option Bool
  pub finished_at : Option Text
  pub exit_code : Option ExitCode
  pub error : Option Text

-- `data` is Docker's inspection: its id, state and labels are read.
pub record Process : Type 0 where
  pub key : Text
  pub created_at : ℕ
  pub updated_at : ℕ
  pub name : Text
  pub kind : ProcessKind
  pub node_name : Text
  pub kind_key : Text
  pub id : Option Text
  pub state : Option ContainerState
  pub labels : List (Text × Text)

pub kind_from_str-to_string : (k : ProcessKind) → kind_from_str (kind_to_string k) ≡ ok k
unfolding kind_from_str kind_to_string match_text ◌=ₜ◌
kind_from_str-to_string vm = refl
kind_from_str-to_string _ = refl
