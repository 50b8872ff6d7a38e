-- ===== src/Versioning.antt =====
-- crates/nanocl_utils/src/ntex/middlewares/versioning.rs, and versioning.rs beside it: the check of
-- the version that a request asks for against the server's.
pub mod Accepts
pub mod Format
use nanocl.Prelude.{
  ℕ, zero, suc, ◌+◌, Text, codes, split, without, starts_with, parse_usize, ltb, ◌==◌, Bool, true,
  false, ◌&&◌, ◌||◌, Option, none, some, List, [], ◌∷◌, ◌++◌, if◌then◌else◌,
}

-- `first()` and `get(1)` of the parts
abbrev pub first : List Text → Option Text
first [] = none
first (a ∷ r) = some a

abbrev pub second : List Text → Option Text
second [] = none
second (a ∷ []) = none
second (a ∷ b ∷ r) = some b

-- What the middleware does with a request: it answers 404 with a message, or hands the request to
-- the service. Either way the response gets the header `x-api-version`.
pub data Outcome : Type 0 where
  not_found : Text → Outcome
  forward : Outcome

-- the comparison, once all four numbers are known
compare_versions : Text → ℕ → ℕ → ℕ → ℕ → Outcome
compare_versions version major minor current_major current_minor =
    if ltb current_major major || (major == current_major && ltb current_minor minor)
    then not_found (version ++ codes " is not supported")
    else forward

check_numbers : Text → Option ℕ → Option ℕ → Option ℕ → Option ℕ → Outcome
check_numbers version (some minor) (some major) (some current_minor) (some current_major) =
    compare_versions version major minor current_major current_minor
check_numbers version _ _ _ _ = not_found (version ++ codes " is not a number")

check_parts : Text → Option Text → Option Text → Option Text → Option Text → Outcome
check_parts version (some minor) (some major) (some current_minor) (some current_major) =
    check_numbers version (parse_usize minor) (parse_usize major) (parse_usize current_minor)
      (parse_usize current_major)
check_parts version _ _ _ _ = not_found (version ++ codes " is invalid")

-- `call`: `requested` is the path's `{version}`, if the route has one.
unfoldable pub call : Text → Option Text → Outcome
unfolding check_parts check_numbers compare_versions
call current none = forward
call current (some version) =
    let versions = split b'.' (without b'v' version) in
    let current_versions = split b'.' current in
    check_parts version (second versions) (first versions) (second current_versions)
      (first current_versions)

-- the loop of `format_version`: the index of the second dot, or 0 if there is none
second_dot : ℕ → ℕ → Text → ℕ
second_dot index dots [] = 0
second_dot index dots (c ∷ s) =
    let dots' = if c == b'.' then dots + 1 else dots in
    if c == b'.' && dots' == 2 then index else second_dot (index + 1) dots' s

abbrev take : ℕ → Text → Text
take zero s = []
take (suc n) [] = []
take (suc n) (c ∷ s) = c ∷ take n s

-- `version[..index]`
unfoldable pub format_version : Text → Text
unfolding second_dot
format_version version = take (second_dot 0 0 version) version
