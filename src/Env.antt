-- ===== src/Env.antt =====
-- The environment of a cargo that is patched: the loop of `fn_patch_obj_by_pk` of
-- bin/nanocld/src/objects/cargo.rs that merges the new variables.
pub mod Merged
pub mod Set
use nanocl.Prelude.{
  ℕ, zero, suc, Text, codes, ◌=ₜ◌, starts_with, split, join, is_empty, not, ◌&&◌, Option, none,
  some, List, [], ◌∷◌, ◌++◌, if◌then◌else◌,
}

abbrev next : Option ℕ → Option ℕ
next none = none
next (some n) = some (suc n)

-- `env_vars.iter().position(|x| x.starts_with(..))`
unfoldable pub position : Text → List Text → Option ℕ
position prefix [] = none
position prefix (x ∷ xs) =
    let rest = position prefix xs in if starts_with prefix x then some 0 else next rest

-- `env_vars[pos]`, at a position that is there
unfoldable pub get_at : ℕ → List Text → Text
get_at n [] = []
get_at zero (x ∷ xs) = x
get_at (suc n) (x ∷ xs) = get_at n xs

unfoldable pub set_at : ℕ → Text → List Text → List Text
set_at n v [] = []
set_at zero v (x ∷ xs) = v ∷ xs
set_at (suc n) v (x ∷ xs) = x ∷ set_at n v xs

-- `env_vars.remove(pos)`
unfoldable pub remove_at : ℕ → List Text → List Text
remove_at n [] = []
remove_at zero (x ∷ xs) = xs
remove_at (suc n) (x ∷ xs) = x ∷ remove_at n xs

unfoldable pub merge_at : List Text → Text → Text → Text → Option ℕ → List Text
merge_at env_vars env_var name value none = env_vars ++ env_var ∷ []
merge_at env_vars env_var name value (some pos) =
    let old_value = get_at pos env_vars in
    if not (old_value =ₜ value) && not (is_empty value)
    then set_at pos (name ++ b'=' ∷ value) env_vars
    else if is_empty value
    then remove_at pos env_vars
    else env_vars

abbrev pub merge_parts : List Text → Text → List Text → List Text
merge_parts env_vars env_var (name ∷ v ∷ vs) =
    merge_at env_vars env_var name (join (codes "=") (v ∷ vs))
      (position (name ++ codes "=") env_vars)
merge_parts env_vars env_var _ = env_vars

-- one round of the loop
unfoldable pub merge_var : List Text → Text → List Text
merge_var env_vars env_var = merge_parts env_vars env_var (split b'=' env_var)

unfoldable pub merge_env : List Text → List Text → List Text
merge_env env_vars [] = env_vars
merge_env env_vars (env_var ∷ new_env) = merge_env (merge_var env_vars env_var) new_env
