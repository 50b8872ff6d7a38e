-- ===== src/Container/Secrets.antt =====
-- The secrets of an object, as variables and as files: bin/nanocld/src/utils/secret.rs. The table of
-- secrets, the files and what the data of a secret hold are a parameter.
pub mod Written
use nanocl.Prelude.{Text, codes, Bool, Option, none, some, List, [], ◌∷◌, ◌++◌}
use nanocl.Io.{Result, ok, err}
use nanocl.Process.{ProcessKind, kind_to_string}
use nanocl.Effect.{Effect, pure, reading, run_all, ignoring, continue, ◌>>=◌, ◌>>◌}

pub record ProxySslConfig : Type 0 where
  pub certificate : Text
  pub certificate_key : Text
  pub certificate_client : Option Text
  pub verify_client : Option Bool
  pub dhparam : Option Text

pub record SecretStore (World Data : Type 0) : Type 0 where
  -- `state.inner.config.state_dir`
  pub state_dir : Text
  -- the names and the data of the secrets with one of the keys, of a kind
  pub read_secrets : List Text → Text → World → Result (List (Text × Data))
  -- `serde_json::from_value`
  pub env_of : Data → Result (List Text)
  pub tls_of : Data → Result ProxySslConfig
  -- `fs::write`
  pub write_file : Text → Text → World → Result (Unit {0}) × World

abbrev append_env : Result (List Text) → Result (List Text) → Result (List Text)
append_env (ok env) (ok envs) = ok (env ++ envs)
append_env (ok env) (err e) = err e
append_env (err e) r = err e

module _ {World Data : Type 0} (s : SecretStore World Data) where
  -- all variables, or the first error
  unfoldable pub all_envs : List (Text × Data) → Result (List Text)
  all_envs [] = ok []
  all_envs ((name, value) ∷ secrets) = append_env (s.env_of value) (all_envs secrets)

  unfoldable pub load_env_secrets : Option (List Text) → Effect World (List Text)
  load_env_secrets none = pure []
  load_env_secrets (some names) = do
    secrets ← reading (s.read_secrets names (codes "nanocl.io/env"))
    reading (λ _. all_envs secrets)

  abbrev write_some : Text → Option Text → Effect World (Unit {0})
  write_some path none = pure tt
  write_some path (some text) = s.write_file path text

  -- the files of a secret in a directory
  unfoldable pub write_secret : Text → Text × Data → Effect World (Unit {0})
  write_secret secrets_dir (name, value) = do
    tls ← reading (λ _. s.tls_of value)
    let path = secrets_dir ++ (codes "/" ++ name)
    s.write_file (path ++ codes ".crt") tls.certificate
    s.write_file (path ++ codes ".key") tls.certificate_key
    write_some (path ++ codes ".ca") tls.certificate_client

  abbrev pub secret_dir : Text → ProcessKind → Text
  secret_dir key kind =
      s.state_dir ++ (codes "/secrets/" ++ (kind_to_string kind ++ (codes "/" ++ key)))

  -- The results of the writes are collected and dropped.
  abbrev write_secrets : Text → Option (List Text) → Effect World (Unit {0})
  write_secrets dir none = pure tt
  write_secrets dir (some names) = do
    secrets ← reading (s.read_secrets names (codes "nanocl.io/tls"))
    ignoring (run_all (write_secret dir) secrets)

  unfoldable pub create_tls_secrets : Text → ProcessKind → Option (List Text) → Effect World Text
  create_tls_secrets key kind names =
      write_secrets (secret_dir key kind) names >> pure (secret_dir key kind)
