-- ===== src/Objects.antt =====
-- Deleting objects: `fn_del_obj_by_pk` and `del_obj_by_pk` of bin/nanocld/src/objects.
pub mod Delete
pub mod Specs
pub mod Cargoes
pub mod Machines
use nanocl.Prelude.{
  ℕ, zero, suc, Text, codes, Bool, true, false, Option, none, some, List, unwrap_or,
}
use nanocl.Io.{IoError, Result, ok, err}
use nanocl.Http.{HttpError, HttpResult, bad_request}
use nanocl.System.Status
use nanocl.System.Status.{ObjPsStatusKind}
use nanocl.System.Action.{NativeEventAction}
use nanocl.System.Event.{EventActor}
use nanocl.Workload.{Cargo, Vm, Job, cargo_actor, vm_actor, job_actor}
use nanocl.Effect.{Effect, pure, raise, reading, ◌>>=◌, ◌>>◌}
use nanocl.Backend.{Backend}
use nanocl.SystemState.{emit_normal_native_action_sync}
use nanocl.Container.Count.{count_status}
use nanocl.EventLoop.{or_panic}

module _ {World : Type 0} (b : Backend World) where
  -- the request that the three objects share
  unfoldable pub wish_destroy : Text → Effect World (Unit {0})
  wish_destroy pk = do
    status ← reading (b.read_status pk)
    b.update_status pk (record {
      wanted = some (Status.to_string ObjPsStatusKind.destroy);
      prev_wanted = some status.wanted;
      actual = some (Status.to_string ObjPsStatusKind.destroying);
      prev_actual = some status.actual;
    })

  abbrev pub refusal : HttpError
  refusal = bad_request (codes "Unable to delete cargo with running instances without force option")

  abbrev pub del_unless_running : Text → Cargo → Bool → ℕ → Effect World (HttpResult Cargo)
  del_unless_running pk item force zero = do wish_destroy pk; pure (HttpResult.ok item)
  del_unless_running pk item true (suc _) = do wish_destroy pk; pure (HttpResult.ok item)
  del_unless_running pk item false (suc _) = pure (HttpResult.err refusal)

  -- Errors of the repositories are raised; the refusal is an HTTP error of its own.
  unfoldable pub fn_del_cargo : Text → Option Bool → Effect World (HttpResult Cargo)
  fn_del_cargo pk force = do
    item ← reading (b.read_cargo pk)
    processes ← reading (b.read_processes item.cargo_key none)
    counts ← or_panic b (count_status processes)
    del_unless_running pk item (unwrap_or force false) counts.3

  unfoldable pub fn_del_vm : Text → Effect World Vm
  fn_del_vm pk = do item ← reading (b.read_vm pk); wish_destroy pk; pure item

  unfoldable pub fn_del_job : Text → Effect World Job
  fn_del_job pk = do item ← reading (b.read_job pk); wish_destroy pk; pure item

  abbrev pub emit_deleted : HttpResult Cargo → Effect World (HttpResult Cargo)
  emit_deleted (HttpResult.err e) = pure (HttpResult.err e)
  emit_deleted (HttpResult.ok item) = do
    emit_normal_native_action_sync b (cargo_actor item) NativeEventAction.destroying
    pure (HttpResult.ok item)

  -- `del_obj_by_pk` of the three
  unfoldable pub del_cargo : Text → Option Bool → Effect World (HttpResult Cargo)
  del_cargo pk force = fn_del_cargo pk force >>= emit_deleted

  unfoldable pub del_vm : Text → Effect World Vm
  del_vm pk = do
    item ← fn_del_vm pk
    emit_normal_native_action_sync b (vm_actor item) NativeEventAction.destroying
    pure item

  unfoldable pub del_job : Text → Effect World Job
  del_job pk = do
    item ← fn_del_job pk
    emit_normal_native_action_sync b (job_actor item) NativeEventAction.destroying
    pure item
