-- ===== src/Container/Create.antt =====
-- Creating the containers of a cargo: `create` of bin/nanocld/src/utils/container/process.rs and the
-- creation functions of cargo.rs. Docker's creation of a container, the row of a process, templates,
-- images and secrets are a parameter.
pub mod Unseen
pub mod Number
use nanocl.Prelude.{
  ℕ, zero, suc, Text, codes, ◌=ₜ◌, show, ltb, Bool, true, false, not, Option, none, some, is_none,
  List, [], ◌∷◌, ◌++◌, retain, unwrap_or, if◌then◌else◌,
}
use nanocl.Io.{IoError, ErrorKind, Result, ok, err, with_context}
use nanocl.Process.{Process, ProcessKind, ExitCode, natural, kind_to_string}
use nanocl.Workload.{Cargo, Config, HostConfig}
use nanocl.Statefile.Objects.{ImagePullPolicy, if_not_present}
use nanocl.Effect.{Effect, pure, raise, reading, continue, run_ordered, ◌>>=◌, ◌>>◌}
use nanocl.Backend.{Backend, DockerResult, in_context, start_container}

-- An item of the stream of `wait_container`: a status code with an error, whose message may be
-- missing, or a failure with its text.
pub data WaitItem : Type 0 where
  exited : ExitCode → Option (Option Text) → WaitItem
  wait_failed : Text → WaitItem

pub record Builder (World : Type 0) : Type 0 where
  -- `state.inner.config.gateway`
  pub gateway : Text
  -- the templates of the cargo, filled in by `generic::inject_data`
  pub inject_data : Cargo → World → Result Cargo
  -- `image::download` of an image, with a secret
  pub download : Text → Option Text → ImagePullPolicy → World → Result (Unit {0}) × World
  pub load_env_secrets : Option (List Text) → World → Result (List Text)
  -- the directory of the secrets of an object
  pub create_tls_secrets : Text → ProcessKind → Option (List Text) → World → Result Text × World
  pub generate_short_id : World → Text × World
  -- Docker's `create_container` under a name; the result is the id
  pub create_container : Text → Config → World → Result Text × World
  -- `ProcessDb::create_from` with the key, the name, the kind, the inspection, the node and the key
  -- of the object
  pub create_from :
      Text → Text → ProcessKind → Process → Text → Text → World → Result Process × World
  -- until the container does not run
  pub wait_container : Text → World → List WaitItem × World

-- `insert` of a hash map
abbrev pub insert : Text → Text → List (Text × Text) → List (Text × Text)
insert k v m = (k, v) ∷ retain (λ e. not (e.0 =ₜ k)) m

abbrev pub no_host_config : HostConfig
no_host_config = record {
  binds = none;
  network_mode = none;
  restart_policy = none;
  auto_remove = none;
  devices = none;
  cap_add = none;
}

-- the labels of a container of the cargo, with the one that tells whether it is an init container
abbrev cargo_labels : Cargo → Text → Config → List (Text × Text)
cargo_labels cargo role config =
    insert (codes "com.docker.compose.project") (codes "nanocl_" ++ cargo.namespace_name) (
      insert role (codes "true") (
        insert (codes "io.nanocl.n") cargo.namespace_name
          (insert (codes "io.nanocl.c") cargo.cargo_key (unwrap_or config.labels []))))

abbrev with_secrets : Text → HostConfig → List Text
with_secrets secret_dir host_config =
    unwrap_or host_config.binds [] ++ (secret_dir ++ codes ":/opt/nanocl.io/secrets") ∷ []

abbrev pub cargo_container_name : Cargo → Text → Text
cargo_container_name cargo id =
    cargo.name ++ (codes "-" ++ (id ++ (codes "." ++ (cargo.namespace_name ++ codes ".c"))))

-- The image of the cargo is unwrapped first, and there a missing one ends with an error, also where
-- the init container has an image.
abbrev image_of : Option Text → Option Text → Result Text
image_of image (some other) = ok (unwrap_or image other)
image_of image none =
    err (with_context ErrorKind.other (codes "panic") (codes "called unwrap on a None value"))

abbrev auto_remove_refused : IoError
auto_remove_refused =
    with_context ErrorKind.interrupted (codes "CargoCreate")
      (codes "Auto remove is not allowed for cargo use a job instead")

abbrev pub is_auto_removed : Cargo → Bool
is_auto_removed cargo =
    unwrap_or (unwrap_or cargo.container.host_config no_host_config).auto_remove false

-- `(0..number)`, from a first number
abbrev pub range : ℕ → ℕ → List ℕ
range first zero = []
range first (suc n) = first ∷ range (suc first) n

module _ {World : Type 0} (b : Backend World) (u : Builder World) where
  unfoldable pub create_process : ProcessKind → Text → Text → Config → Effect World Process
  create_process kind name kind_key item = do
    let labels =
        insert (codes "io.nanocl.kind") (kind_to_string kind)
          (insert (codes "io.nanocl") (codes "enabled") (unwrap_or item.labels []))
    id ← u.create_container name (record item { labels = some labels })
    inspect ← reading (b.inspect_container id)
    u.create_from id name kind inspect b.hostname kind_key

  unfoldable pub create_cargo_env : Cargo → List Text → ℕ → List Text
  create_cargo_env cargo secret_envs current =
      unwrap_or cargo.container.env []
      ++ (secret_envs
          ++ ((codes "NANOCL_NODE=" ++ b.hostname)
              ∷ (codes "NANOCL_NODE_ADDR=" ++ u.gateway)
              ∷ (codes "NANOCL_CARGO_KEY=" ++ cargo.cargo_key)
              ∷ (codes "NANOCL_CARGO_NAMESPACE=" ++ cargo.namespace_name)
              ∷ (codes "NANOCL_CARGO_INSTANCE=" ++ show current)
              ∷ []))

  abbrev short_id : Effect World Text
  short_id w = let (id, w') = u.generate_short_id w in (ok id, w')

  unfoldable pub create_init_container : Cargo → Config → Effect World Process
  create_init_container cargo init_container = do
    image ← reading (λ w. image_of init_container.image cargo.container.image)
    let host_config = unwrap_or init_container.host_config no_host_config
    secret_dir ← u.create_tls_secrets cargo.cargo_key ProcessKind.cargo cargo.secrets
    u.download image cargo.image_pull_secret (unwrap_or cargo.image_pull_policy if_not_present)
    env_secrets ← reading (u.load_env_secrets cargo.secrets)
    id ← short_id
    create_process ProcessKind.cargo (codes "init-" ++ cargo_container_name cargo id)
        cargo.cargo_key
        (record init_container {
          image = some image;
          env = some (create_cargo_env cargo env_secrets 0);
          labels = some (cargo_labels cargo (codes "io.nanocl.init-c") init_container);
          host_config = some (record host_config {
            binds = some (with_secrets secret_dir host_config);
            network_mode = some (unwrap_or host_config.network_mode (codes "nanoclbr0"));
          });
        })

  -- the configuration of an instance
  unfoldable pub instance_config : Cargo → List Text → Text → ℕ → Config
  instance_config cargo env_secrets secret_dir current =
      let host_config = unwrap_or cargo.container.host_config no_host_config in
      let ordinal_index = if ltb 0 current then show current else [] in
      record (cargo.container) {
        attach_stderr = some true;
        attach_stdout = some true;
        tty = some true;
        hostname = some (ordinal_index ++ unwrap_or cargo.container.hostname cargo.name);
        labels = some (cargo_labels cargo (codes "io.nanocl.not-init-c") cargo.container);
        env = some (create_cargo_env cargo env_secrets current);
        host_config = some (record host_config {
          restart_policy = some (unwrap_or host_config.restart_policy (codes "always", none));
          network_mode = some (codes "nanoclbr0");
          binds = some (with_secrets secret_dir host_config);
        });
      }

  abbrev unless_refused : Bool → Effect World Process → Effect World Process
  unless_refused true m = raise auto_remove_refused
  unless_refused false m = m

  unfoldable pub create_instance : Cargo → List Text → Text → ℕ → Effect World Process
  create_instance cargo env_secrets secret_dir current = do
    id ← short_id
    unless_refused (is_auto_removed cargo) (
        create_process ProcessKind.cargo (cargo_container_name cargo id) cargo.cargo_key
          (instance_config cargo env_secrets secret_dir current))

  unfoldable pub create : Cargo → ℕ → Effect World (List Process)
  create cargo number = do
    cargo ← reading (u.inject_data cargo)
    u.download (unwrap_or cargo.container.image []) cargo.image_pull_secret
        (unwrap_or cargo.image_pull_policy if_not_present)
    env_secrets ← reading (u.load_env_secrets cargo.secrets)
    secret_dir ← u.create_tls_secrets cargo.cargo_key ProcessKind.cargo cargo.secrets
    run_ordered (create_instance cargo env_secrets secret_dir) (range 0 number)
