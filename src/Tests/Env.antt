-- ===== src/Tests/Env.antt =====
-- Environments of a cargo.
use nanocl.Prelude.{
  Text, codes, List, [], ◌∷◌, ◌++◌, some, starts_with, all, ◌≡◌, refl, =ₜ_iff, ◌=ₜ◌, false≢true,
  some_injective,
}
use nanocl.Env.{merge_var}
use nanocl.Env.Merged.{find_var}
use nanocl.Env.Set.{merge_var_set}

abbrev env : List Text
env = codes "PORT=80" ∷ codes "HOST=web" ∷ []

merge_var_set_example :
    find_var (codes "PORT") (merge_var env (codes "PORT" ++ b'=' ∷ codes "8080"))
    ≡ some (codes "PORT" ++ b'=' ∷ codes "8080")
unfolding all find_var starts_with ◌=ₜ◌
merge_var_set_example =
    merge_var_set (codes "PORT") env (codes "8080") refl refl
      (λ h. false≢true ((=ₜ_iff (codes "PORT=80") (codes "8080")).1 (some_injective h)))
