-- ===== src/Container/Generic.antt =====
-- bin/nanocld/src/utils/container/generic.rs: requests to start and to stop an object.
pub mod Requests
use nanocl.Prelude.{Text, ◌=ₜ◌, some, if◌then◌else◌}
use nanocl.System.Status
use nanocl.System.Status.{ObjPsStatusKind}
use nanocl.System.Action.{NativeEventAction}
use nanocl.Process.{ProcessKind, vm, job, cargo}
use nanocl.Workload.{cargo_actor, vm_actor, job_actor}
use nanocl.Effect.{Effect, pure, reading, ◌>>=◌, ◌>>◌}
use nanocl.Backend.{Backend, touch_job}
use nanocl.SystemState.{emit_normal_native_action_sync}

-- what a start is to lead to
unfoldable pub wanted_by_start : ProcessKind → ObjPsStatusKind
wanted_by_start job = ObjPsStatusKind.finish
wanted_by_start _ = ObjPsStatusKind.start

module _ {World : Type 0} (b : Backend World) where
  unfoldable pub emit : Text → ProcessKind → NativeEventAction → Effect World (Unit {0})
  emit kind_key vm action = do
    item ← reading (b.read_vm kind_key)
    emit_normal_native_action_sync b (vm_actor item) action
  emit kind_key cargo action = do
    item ← reading (b.read_cargo kind_key)
    emit_normal_native_action_sync b (cargo_actor item) action
  emit kind_key job action = do
    (λ w. b.write (touch_job kind_key (b.now w)) w)
    item ← reading (b.read_job kind_key)
    emit_normal_native_action_sync b (job_actor item) action

  unfoldable pub emit_starting : Text → ProcessKind → Effect World (Unit {0})
  emit_starting kind_key kind = do
    current_status ← reading (b.read_status kind_key)
    b.update_status kind_key (record {
      wanted = some (Status.to_string (wanted_by_start kind));
      prev_wanted = some current_status.wanted;
      actual = some (Status.to_string ObjPsStatusKind.starting);
      prev_actual = some current_status.actual;
    })
    emit kind_key kind NativeEventAction.starting

  unfoldable pub emit_stopping : Text → ProcessKind → Effect World (Unit {0})
  emit_stopping kind_key kind = do
    current_status ← reading (b.read_status kind_key)
    if current_status.actual =ₜ Status.to_string ObjPsStatusKind.stop then pure tt else do
      b.update_status kind_key (record {
        wanted = some (Status.to_string ObjPsStatusKind.stop);
        prev_wanted = some current_status.wanted;
        actual = some (Status.to_string ObjPsStatusKind.stopping);
        prev_actual = some current_status.actual;
      })
      emit kind_key kind NativeEventAction.stopping
