-- ===== src/Sync.antt =====
-- What the daemon does at its start with the containers and images that are there:
-- bin/nanocld/src/utils/system.rs. Docker's list of containers, their inspection, the tables of
-- processes and namespaces and the directory of images are a parameter.
pub mod Processes
pub mod Images
pub mod Started
pub mod Zombies
pub mod Files
use nanocl.Prelude.{
  ℕ, Text, codes, ◌=ₜ◌, split, join, without, Bool, true, false, any, Option, none, some, List, [],
  ◌∷◌, ◌++◌, ◌⊎◌, inl, inr, unwrap_or, if◌then◌else◌, decide,
}
use nanocl.Io.{IoError, ErrorKind, Result, ok, err, with_context}
use nanocl.Http.{HttpResult}
use nanocl.Http.Effect.{HttpEffect}
use nanocl.Errors.{io_of_http}
use nanocl.System.Status
use nanocl.System.Status.{ObjPsStatusKind}
use nanocl.Process.{ProcessKind, kind_from_str}
use nanocl.Workload.{Cargo, Config, HostConfig}
use nanocl.Statefile.Objects.{CargoSpecPartial}
use nanocl.Status.{ObjPsStatusUpdate, no_update}
use nanocl.Effect.{Effect, pure, raise, reading, continue, for_each, ◌>>=◌, ◌>>◌}
use nanocl.Backend.{Backend}
use nanocl.Objects.Specs.{Repositories, daemon, Config-discrete, update_from_cargo_spec}
use nanocl.Objects.Cargoes.{CargoObjCreateIn, create_cargo}
use nanocl.VmImage.{VmImageDb, ImageStore}
use nanocl.VmImage as VmImage

pub data ContainerStatus : Type 0 where
  running restarting dead exited other_status : ContainerStatus

pub record ContainerSummary : Type 0 where
  pub id : Option Text
  pub labels : Option (List (Text × Text))

-- the inspection of a container, with all its data, which can be stored
pub record Inspection (Data : Type 0) : Type 0 where
  pub id : Option Text
  pub created : Option Text
  pub name : Option Text
  pub status : Option ContainerStatus
  pub config : Config
  pub host_config : Option HostConfig
  pub content : Data

-- a row of the table of processes that is to be created
pub record ProcessPartial (Data : Type 0) : Type 0 where
  pub key : Text
  pub name : Text
  pub kind : ProcessKind
  pub content : Data
  pub node_name : Text
  pub kind_key : Text
  pub created_at : ℕ

pub record Node (World Data : Type 0) : Type 0 where
  pub same : Data → Data → Bool
  pub list_containers : World → Result (List ContainerSummary)
  pub inspect : Text → World → Result (Inspection Data)
  -- a time, or the text of an error
  pub parse_time : Text → Text ⊎ ℕ
  -- the data of a process, `ProcessDb::transform_read_by_pk`
  pub read_process : Text → World → Result Data
  pub update_process : Text → Text → ℕ → Data → World → Result (Unit {0}) × World
  pub store_process : ProcessPartial Data → World → Result (Unit {0}) × World
  -- `ProcessDb::del_by` of those of the node whose key is none of the list
  pub delete_others : Text → List Text → World → Result (Unit {0}) × World
  pub read_namespace : Text → World → Result (Unit {0})
  pub create_namespace : Text → World → Result (Unit {0}) × World
  -- `vars::VERSION`, and the text of a status
  pub version : Text
  pub show_status : ℕ → Text

unfoldable pub get : Text → List (Text × Text) → Option Text
get k [] = none
get k ((j, v) ∷ labels) = let rest = get k labels in if j =ₜ k then some v else rest

-- the label that has the key of an object of a kind
abbrev key_label : Text → Option Text
key_label kind =
    if kind =ₜ codes "cargo"
    then some (codes "io.nanocl.c")
    else if kind =ₜ codes "job"
    then some (codes "io.nanocl.j")
    else if kind =ₜ codes "vm"
    then some (codes "io.nanocl.v")
    else none

abbrev pub and_then : {A B : Type 0} → Option A → (A → Option B) → Option B
and_then none f = none
and_then (some a) f = f a

-- the kind and the key of the object of a container, if it is one of the daemon's
unfoldable pub owner : List (Text × Text) → Option (Text × Text)
owner labels = and_then (get (codes "io.nanocl.kind") labels) (λ kind.
    and_then (key_label kind) (λ label. and_then (get label labels) (λ key. some (kind, key))))

abbrev pub labels_of : ContainerSummary → List (Text × Text)
labels_of summary = unwrap_or summary.labels []

unfoldable pub actual_of : ContainerStatus → Option ObjPsStatusKind
actual_of running = some ObjPsStatusKind.start
actual_of restarting = some ObjPsStatusKind.fail
actual_of dead = some ObjPsStatusKind.stop
actual_of exited = some ObjPsStatusKind.stop
actual_of other_status = none

-- a specification with a name and a container, and nothing else
abbrev pub bare_spec : Text → Config → CargoSpecPartial daemon
bare_spec name container = record {
  name = name;
  metadata = none;
  init_container = none;
  secrets = none;
  image_pull_secret = none;
  image_pull_policy = none;
  container = container;
  replication = none;
}

abbrev parsed_time : Text ⊎ ℕ → Result ℕ
parsed_time (inl m) = err (with_context ErrorKind.invalid_data (codes "ProcessDb") m)
parsed_time (inr t) = ok t

abbrev report_update : ObjPsStatusKind → ObjPsStatusUpdate
report_update status = record no_update {
  wanted = some (Status.to_string ObjPsStatusKind.start);
  actual = some (Status.to_string status);
}

module _ {World Data : Type 0} (b : Backend World) (n : Node World Data) where
  abbrev update_unless_same : Bool → Text → Text → Inspection Data → Effect World (Unit {0})
  update_unless_same true id name instance' = pure tt
  update_unless_same false id name instance' =
      λ w. n.update_process id name (b.now w) instance'.content w

  abbrev create_row : Text → Text → Text → Text → Inspection Data → Effect World (Unit {0})
  create_row id name key kind instance' = do
    kind ← reading (λ _. kind_from_str kind)
    created_at ← reading (λ _. parsed_time (n.parse_time (unwrap_or instance'.created [])))
    n.store_process (record {
      key = id;
      name = name;
      kind = kind;
      content = instance'.content;
      node_name = b.hostname;
      kind_key = key;
      created_at = created_at;
    })

  abbrev sync_found :
      Text → Text → Text → Text → Inspection Data → Result Data → Effect World (Unit {0})
  sync_found id name key kind instance' (ok content) =
      update_unless_same (n.same content instance'.content) id name instance'
  sync_found id name key kind instance' (err _) = create_row id name key kind instance'

  unfoldable pub sync_process : Text → Text → Inspection Data → Effect World (Unit {0})
  sync_process key kind instance' w =
      let id = unwrap_or instance'.id [] in
      let name = without b'/' (unwrap_or instance'.name []) in
      sync_found id name key kind instance' (n.read_process id w) w

  abbrev create_unless_found : Text → Result (Unit {0}) → Effect World (Unit {0})
  create_unless_found name (ok _) = pure tt
  create_unless_found name (err _) = n.create_namespace name

  unfoldable pub register_namespace : Text → Effect World (Unit {0})
  register_namespace name w = create_unless_found name (n.read_namespace name w) w

  abbrev report : Text → Option ObjPsStatusKind → Effect World (Unit {0})
  report key none = pure tt
  report key (some status) = b.update_status key (report_update status)

  unfoldable pub sync_cargo_status : Cargo → Inspection Data → Effect World (Unit {0})
  sync_cargo_status cargo container = report cargo.cargo_key (and_then container.status actual_of)

  -- the error of an answer as one of the daemon's
  abbrev lowered : {A : Type 0} → HttpResult A → Result A
  lowered (HttpResult.ok a) = ok a
  lowered (HttpResult.err e) = err (io_of_http n.show_status e)

  abbrev pub lower : {A : Type 0} → HttpEffect World A → Effect World A
  lower m w = let (r, w') = m w in (lowered r, w')

  abbrev if_ok : Result (Unit {0}) → Effect World (Unit {0}) → Effect World (Unit {0})
  if_ok (ok _) m = m
  if_ok (err _) m = pure tt

  -- `if let Err(err) = m { warn; continue }`
  abbrev pub or_skip : Effect World (Unit {0}) → Effect World (Unit {0}) → Effect World (Unit {0})
  or_skip m rest w = let (r, w') = m w in if_ok r rest w'

  abbrev pub config_of : Inspection Data → Config
  config_of container = record container.config { host_config = container.host_config }

  abbrev pub v_version : Text
  v_version = codes "v" ++ n.version
