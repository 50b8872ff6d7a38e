-- ===== src/Objects/Cargoes.antt =====
-- Cargoes that are created, replaced and patched: bin/nanocld/src/objects/cargo.rs, with
-- `create_obj`, `put_obj_by_pk` and `patch_obj_by_pk` of objects/generic.
pub mod Put
pub mod Patched
use nanocl.Prelude.{
  ℕ, Text, codes, ◌=ₜ◌, Bool, true, false, not, ◌||◌, ◌==◌, all, any, is_empty, Option, none, some,
  is_none, List, [], ◌∷◌, ◌++◌, unwrap_or, if◌then◌else◌,
}
use nanocl.Io.{IoError, Result, ok, err}
use nanocl.Http.{HttpError, HttpResult, bad_request, internal_server_error}
use nanocl.Http.Effect.{HttpEffect, pure, raise, io, reading, continue, ◌>>=◌, ◌>>◌}
use nanocl.Effect as Io_effect
use nanocl.Errors.{io_to_string}
use nanocl.System.Status
use nanocl.System.Status.{ObjPsStatusKind}
use nanocl.System.Action.{NativeEventAction}
use nanocl.System.Event.{Value}
use nanocl.Workload.{Cargo, Config, HostConfig, ObjPsStatus, cargo_actor}
use nanocl.Statefile.Objects.{CargoSpecPartial, ImagePullPolicy, ReplicationMode}
use nanocl.Status.{ObjPsStatusPartial, ObjPsStatusUpdate, ObjPsStatusDb, try_from}
use nanocl.Backend.{Backend}
use nanocl.SystemState.{emit_normal_native_action_sync}
use nanocl.Key.{gen_key}
use nanocl.Env.{merge_env}
use nanocl.Container.Create.{no_host_config}
use nanocl.Objects.Specs.{
  Repositories, CargoDb, daemon, try_from_cargo_partial, try_to_cargo_spec, with_cargo_spec,
  update_from_cargo_spec,
}

pub record CargoObjCreateIn : Type 0 where
  pub namespace : Text
  pub spec : CargoSpecPartial daemon
  pub version : Text

pub record CargoObjPutIn : Type 0 where
  pub spec : CargoSpecPartial daemon
  pub version : Text

pub record CargoSpecUpdate : Type 0 where
  pub name : Option Text
  pub metadata : Option Value
  pub init_container : Option Config
  pub secrets : Option (List Text)
  pub image_pull_secret : Option Text
  pub image_pull_policy : Option ImagePullPolicy
  pub container : Option Config
  pub replication : Option ReplicationMode

pub record CargoObjPatchIn : Type 0 where
  pub spec : CargoSpecUpdate
  pub version : Text

-- the first of two that is there
abbrev pub or_else : {A : Type 0} → Option A → Option A → Option A
or_else none old = old
or_else (some x) old = some x

-- the volumes with those of the new ones that are not there
unfoldable pub merge_volumes : List Text → List Text → List Text
merge_volumes volumes [] = volumes
merge_volumes volumes (volume ∷ new_volumes) =
    merge_volumes (if any (λ x. x =ₜ volume) volumes then volumes else volumes ++ volume ∷ [])
      new_volumes

abbrev pub volumes_of : Config → List Text
volumes_of config = unwrap_or (unwrap_or config.host_config no_host_config).binds []

-- Of the new configuration the environment, the volumes, the image and the command are taken.
unfoldable pub patched_container : Config → Option Config → Config
patched_container old none = old
patched_container old (some container) =
    let volumes = merge_volumes (volumes_of old) (volumes_of container) in
    record old {
      cmd = or_else container.cmd old.cmd;
      image = or_else container.image old.image;
      env = some (merge_env (unwrap_or old.env []) (unwrap_or container.env []));
      host_config =
          if not (is_empty volumes) || not (is_none old.host_config)
          then some (record (unwrap_or old.host_config no_host_config) { binds = some volumes })
          else none;
    }

-- the specification that a patch makes of that of a cargo
unfoldable pub patched : Cargo → CargoSpecUpdate → CargoSpecPartial daemon
patched cargo spec = record {
  name = cargo.name;
  container = patched_container cargo.container spec.container;
  init_container = or_else spec.init_container cargo.init_container;
  replication = spec.replication;
  secrets = or_else spec.secrets cargo.secrets;
  metadata = or_else spec.metadata cargo.metadata;
  image_pull_secret = or_else spec.image_pull_secret cargo.image_pull_secret;
  image_pull_policy = or_else spec.image_pull_policy cargo.image_pull_policy;
}

-- the status of an object that is new
abbrev pub new_status : Text → ObjPsStatusPartial
new_status key = record {
  key = key;
  wanted = ObjPsStatusKind.create;
  prev_wanted = ObjPsStatusKind.create;
  actual = ObjPsStatusKind.create;
  prev_actual = ObjPsStatusKind.create;
}

abbrev internal : {A : Type 0} → Result A → HttpResult A
internal (ok a) = HttpResult.ok a
internal (err e) = HttpResult.err (internal_server_error (io_to_string e))

abbrev name_refused : HttpError
name_refused = bad_request (codes "Cargo name can only contain a-z, A-Z, 0-9, and -_")

module _ {World Data : Type 0} (b : Backend World) (r : Repositories World Data) where
  abbrev pub is_cargo_name : Text → Bool
  is_cargo_name = all (λ c. r.is_alphanumeric c || (c == b'_' || c == b'-'))

  abbrev pub failing_unless : Bool → HttpError → HttpEffect World (Unit {0})
  failing_unless true e = pure tt
  failing_unless false e = raise e

  unfoldable pub fn_create_cargo : CargoObjCreateIn → HttpEffect World Cargo
  fn_create_cargo obj = do
    failing_unless (is_cargo_name obj.spec.name) name_refused
    let key = gen_key obj.namespace obj.spec.name
    new_spec ← io (try_from_cargo_partial b r key obj.version obj.spec)
    row ← io (r.create_spec new_spec)
    spec ← io (Io_effect.reading (λ _. try_to_cargo_spec b r row))
    status ← io (r.create_status (new_status key))
    item ← λ w.
        io
          (r.create_cargo (record {
            key = key;
            name = obj.spec.name;
            created_at = b.now w;
            namespace_name = obj.namespace;
            status_key = key;
            spec_key = spec.key;
          }))
          w
    status ← reading (λ _. internal (try_from status))
    pure (with_cargo_spec item spec status)

  -- the object is returned after its event is sent
  abbrev pub announcing : NativeEventAction → Cargo → HttpEffect World Cargo
  announcing action item = do
    io (emit_normal_native_action_sync b (cargo_actor item) action)
    pure item

  unfoldable pub create_cargo : CargoObjCreateIn → HttpEffect World Cargo
  create_cargo obj = fn_create_cargo obj >>= announcing NativeEventAction.create

  -- the request for a start that a new specification makes
  unfoldable pub wish_update : Text → Io_effect.Effect World (Unit {0})
  wish_update pk w =
      Io_effect.continue (b.read_status pk w)
        (λ status. b.update_status pk (record {
          wanted = some (Status.to_string ObjPsStatusKind.start);
          prev_wanted = some status.wanted;
          actual = some (Status.to_string ObjPsStatusKind.updating);
          prev_actual = some status.actual;
        }))
        w

  unfoldable pub fn_put_cargo : Text → CargoObjPutIn → HttpEffect World Cargo
  fn_put_cargo pk obj = do
    io (wish_update pk)
    io (update_from_cargo_spec b r pk obj.spec obj.version)

  unfoldable pub put_cargo : Text → CargoObjPutIn → HttpEffect World Cargo
  put_cargo pk obj = fn_put_cargo pk obj >>= announcing NativeEventAction.updating

  unfoldable pub fn_patch_cargo : Text → CargoObjPatchIn → HttpEffect World Cargo
  fn_patch_cargo pk obj = do
    cargo ← io (Io_effect.reading (b.read_cargo pk))
    fn_put_cargo pk (record { spec = patched cargo obj.spec; version = obj.version })

  unfoldable pub patch_cargo : Text → CargoObjPatchIn → HttpEffect World Cargo
  patch_cargo pk obj = fn_patch_cargo pk obj >>= announcing NativeEventAction.updating
