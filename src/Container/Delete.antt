-- ===== src/Container/Delete.antt =====
-- The tasks that delete an object with its containers: `delete` of
-- bin/nanocld/src/utils/container/cargo.rs and job.rs.
pub mod Destroyed
use nanocl.Prelude.{Text, false, Option, none, some, List, [], ◌∷◌, map}
use nanocl.Io.{Result, ok}
use nanocl.System.Action.{NativeEventAction}
use nanocl.Process.{Process}
use nanocl.Workload.{Job, cargo_actor, job_actor}
use nanocl.Effect.{Effect, pure, reading, for_each, ◌>>=◌, ◌>>◌}
use nanocl.Backend.{Backend, DockerCall, stop_container, remove_container, clear_cargo, clear_job}
use nanocl.SystemState.{emit_normal_native_action_sync}
use nanocl.Container.Process.{delete_instances}
use nanocl.Cron.{Crontab, remove_cron_rule}

module _ {World : Type 0} (b : Backend World) where
  -- `let _ =` before a Docker call
  unfoldable pub docker_ignored : DockerCall → Effect World (Unit {0})
  docker_ignored c w = (ok tt, (b.docker c w).1)

  unfoldable pub delete_cargo : Text → Effect World (Unit {0})
  delete_cargo key = do
    processes ← reading (b.read_processes key none)
    for_each
        (λ p.
          docker_ignored (stop_container p.key) >> docker_ignored (remove_container p.key false))
        processes
    cargo ← reading (b.read_cargo key)
    b.write (clear_cargo key)
    emit_normal_native_action_sync b (cargo_actor cargo) NativeEventAction.destroy

  -- The crontab belongs to the same world.
  module _ (t : Crontab World) where
    abbrev pub unschedule : Job → Option Text → Effect World (Unit {0})
    unschedule job none = pure tt
    unschedule job (some _) = remove_cron_rule t job

    unfoldable pub delete_job : Text → Effect World (Unit {0})
    delete_job key = do
      job ← reading (b.read_job key)
      processes ← reading (b.read_processes key none)
      delete_instances b (map (λ p. p.key) processes)
      b.write (clear_job job.name)
      unschedule job job.schedule
      emit_normal_native_action_sync b (job_actor job) NativeEventAction.destroy
