-- ===== src/Objects/Machines.antt =====
-- Machines that are created, replaced and patched: bin/nanocld/src/objects/vm.rs.
pub mod Families
use nanocl.Prelude.{
  ℕ, Text, codes, ◌=ₜ◌, ◌==◌, any, Bool, true, false, not, Option, none, some, List, [], ◌∷◌, ◌++◌,
  unwrap_or,
}
use nanocl.Io.{Result, ok, err}
use nanocl.Http.{HttpError, HttpResult, bad_request, conflict}
use nanocl.Http.Effect.{HttpEffect, pure, raise, io, continue, ◌>>=◌, ◌>>◌}
use nanocl.Effect as Io_effect
use nanocl.System.Action.{NativeEventAction}
use nanocl.Workload.{Vm, vm_actor}
use nanocl.Statefile.Objects.{VmSpecPartial, VmSpecUpdate, VmSpec, VmDisk}
use nanocl.Status.{try_from}
use nanocl.Backend.{Backend}
use nanocl.SystemState.{emit_normal_native_action_sync}
use nanocl.Key.{gen_key}
use nanocl.VmImage.{VmImageDb, ImageStore, create_snap}
use nanocl.Objects.Specs.{
  Repositories, VmDb, daemon, try_from_vm_partial, try_to_vm_spec, with_vm_spec,
  update_from_vm_spec,
}
use nanocl.Objects.Cargoes.{or_else, new_status, wish_update, failing_unless}

pub record VmObjCreateIn : Type 0 where
  pub namespace : Text
  pub spec : VmSpecPartial daemon
  pub version : Text

pub record VmObjPutIn : Type 0 where
  pub spec : VmSpecPartial daemon
  pub version : Text

pub record VmObjPatchIn : Type 0 where
  pub spec : VmSpecUpdate daemon
  pub version : Text

-- the specification that a patch makes of the name of a machine and its old specification
unfoldable pub patched_vm : Text → VmSpec daemon → VmSpecUpdate daemon → VmSpecPartial daemon
patched_vm name old_spec spec = record {
  name = unwrap_or spec.name name;
  disk = old_spec.disk;
  host_config = some (unwrap_or spec.host_config old_spec.host_config);
  hostname = or_else spec.hostname old_spec.hostname;
  user = or_else spec.user old_spec.user;
  password = or_else spec.password old_spec.password;
  ssh_key = or_else spec.ssh_key old_spec.ssh_key;
  mac_address = old_spec.mac_address;
  labels = or_else spec.labels old_spec.labels;
  metadata = or_else spec.metadata old_spec.metadata;
}

abbrev pub is_ok : {A : Type 0} → Result A → Bool
is_ok (ok _) = true
is_ok (err _) = false

abbrev pub vm_exists : Text → Text → HttpError
vm_exists name namespace =
    conflict
      (codes "VM with name " ++ (name ++ (codes " already exists in namespace " ++ namespace)))

abbrev pub dotted : HttpError
dotted = bad_request (codes "VM name cannot contain '.'")

abbrev no_base : Text → HttpError
no_base image = bad_request (
    codes "Image "
    ++ (image ++ codes " is not a base image please convert the snapshot into a base image first"))

module _ {World Data : Type 0} (b : Backend World) (r : Repositories World Data)
    (s : ImageStore World) where
  abbrev pub unless_there : Text → Text → Text → HttpEffect World (Unit {0})
  unless_there key name namespace w =
      failing_unless b r (not (is_ok (b.read_vm key w))) (vm_exists name namespace) w

  abbrev pub store_vm : VmObjCreateIn → Text → Text → HttpEffect World VmDb
  store_vm obj key spec_key w =
      io
        (r.create_vm (record {
          key = key;
          name = obj.spec.name;
          created_at = b.now w;
          namespace_name = obj.namespace;
          spec_key = spec_key;
          status_key = key;
        }))
        w

  -- the rows of a machine, after its snapshot
  unfoldable pub create_vm_rows : VmObjCreateIn → Text → VmDisk → HttpEffect World Vm
  create_vm_rows obj key disk = do
    let vm = record (obj.spec) { disk = disk }
    status ← io (r.create_status (new_status key))
    status ← io (Io_effect.reading (λ _. try_from status))
    new_spec ← io (try_from_vm_partial b r key obj.version vm)
    row ← io (r.create_spec new_spec)
    spec ← io (Io_effect.reading (λ _. try_to_vm_spec b r row))
    item ← store_vm obj key spec.key
    pure (with_vm_spec item spec status)

  abbrev pub size_of : VmDisk → ℕ
  size_of disk = unwrap_or disk.size 20

  abbrev pub snap_name : VmImageDb → Text → Text
  snap_name image key = image.name ++ b'.' ∷ key

  abbrev pub base_only : VmImageDb → VmDisk → HttpEffect World (Unit {0})
  base_only image disk = failing_unless b r (image.kind =ₜ codes "Base") (no_base disk.image)

  -- from the image on
  abbrev pub create_with : VmObjCreateIn → Text → VmImageDb → HttpEffect World Vm
  create_with obj key image =
      base_only image obj.spec.disk
      >> (create_snap s (snap_name image key) (size_of obj.spec.disk) image >>= λ snapshot.
          create_vm_rows obj key
            (record { image = snapshot.name; size = some (size_of obj.spec.disk) }))

  unfoldable pub fn_create_vm : VmObjCreateIn → HttpEffect World Vm
  fn_create_vm obj = do
    let key = gen_key obj.namespace obj.spec.name
    unless_there key obj.spec.name obj.namespace
    failing_unless b r (not (any (λ c. c == b'.') obj.spec.name)) dotted
    image ← io (Io_effect.reading (s.read_by_pk obj.spec.disk.image))
    create_with obj key image

  abbrev pub announcing : NativeEventAction → Vm → HttpEffect World Vm
  announcing action item = do
    io (emit_normal_native_action_sync b (vm_actor item) action)
    pure item

  unfoldable pub create_vm : VmObjCreateIn → HttpEffect World Vm
  create_vm obj = fn_create_vm obj >>= announcing NativeEventAction.create

  unfoldable pub fn_put_vm : Text → VmObjPutIn → HttpEffect World Vm
  fn_put_vm pk obj = do
    vm ← io (Io_effect.reading (b.read_vm pk))
    io (wish_update b r pk)
    io (update_from_vm_spec b r vm.vm_key obj.spec obj.version)

  unfoldable pub put_vm : Text → VmObjPutIn → HttpEffect World Vm
  put_vm pk obj = fn_put_vm pk obj >>= announcing NativeEventAction.updating

  unfoldable pub fn_patch_vm : Text → VmObjPatchIn → HttpEffect World Vm
  fn_patch_vm pk obj = do
    vm ← io (Io_effect.reading (b.read_vm pk))
    row ← io (Io_effect.reading (r.read_spec_of vm.vm_key))
    old_spec ← io (Io_effect.reading (λ _. try_to_vm_spec b r row))
    fn_put_vm pk (record { spec = patched_vm vm.name old_spec obj.spec; version = obj.version })

  unfoldable pub patch_vm : Text → VmObjPatchIn → HttpEffect World Vm
  patch_vm pk obj = fn_patch_vm pk obj >>= announcing NativeEventAction.updating
