-- ===== src/Container/Secrets/Written.antt =====
-- What loading and writing secrets returns.
use nanocl.Prelude.{◌++◌, Text, codes, some, List, [], ◌∷◌, ◌≡◌, refl, inl, inr}
use nanocl.Io.{ok, Result-cases}
use nanocl.Process.{ProcessKind}
use nanocl.Container.Secrets.{SecretStore, create_tls_secrets, secret_dir, all_envs}

module _ {World Data : Type 0} (s : SecretStore World Data) where
  -- If the secrets can be read, the directory is returned, whether a file could be written or not.
  create_tls_secrets-ok :
      (key : Text) (kind : ProcessKind) (names : List Text) (w : World)
      (secrets : List (Text × Data))
      → s.read_secrets names (codes "nanocl.io/tls") w ≡ ok secrets
      → (create_tls_secrets s key kind (some names) w).0 ≡ ok (secret_dir s key kind)
  unfolding create_tls_secrets
  create_tls_secrets-ok key kind names w secrets h = rw h refl

  -- One secret whose data are no list of variables fails all that come with it.
  all_envs-broken :
      (before after : List (Text × Data)) (name : Text) (value : Data) (env : List Text)
      → ((e : List Text) → ¬ (s.env_of value ≡ ok e))
      → ¬ (all_envs s (before ++ (name, value) ∷ after) ≡ ok env)
  unfolding all_envs
  all_envs-broken [] after name value env broken h = elim (Result-cases (s.env_of value)) [
    | inl (e, k) ↦ broken e k
    | inr (e, k) ↦ cc (rw k at h)
  ]
  all_envs-broken ((n, d) ∷ before) after name value env broken h =
      elim (Result-cases (s.env_of d)) [
        | inr (e, k) ↦ cc (rw k at h)
        | inl (e, k) ↦ elim (Result-cases (all_envs s (before ++ (name, value) ∷ after))) [
          | inl (es, j) ↦ all_envs-broken before after name value es broken j
          | inr (x, j) ↦ cc (rw (k, j) at h)
        ]
      ]
