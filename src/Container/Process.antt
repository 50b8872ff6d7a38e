-- ===== src/Container/Process.antt =====
-- bin/nanocld/src/utils/container/process.rs: calls on all containers of an object.
pub mod Reports
use nanocl.Prelude.{
  Text, codes, ℕ, ◌==◌, Bool, true, false, Option, none, some, List, [], ◌∷◌, ◌++◌, unwrap_or,
  if◌then◌else◌,
}
use nanocl.Io.{IoError, Result, ok, err, with_context, ErrorKind}
use nanocl.System.Status.{ObjPsStatusKind}
use nanocl.System.Action.{NativeEventAction}
use nanocl.Process.{Process, ProcessKind}
use nanocl.Effect.{Effect, pure, raise, reading, for_each, run_all, ◌>>=◌, ◌>>◌}
use nanocl.Backend.{
  Backend, DockerCall, start_container, stop_container, restart_container, kill_container,
  remove_container, DockerResult, DockerError, done, docker_error, response, failed, in_context,
  message, delete_process,
}
use nanocl.Status.Table.{update_actual_status}
use nanocl.Container.Generic.{emit}

-- the label of the containers that are no init containers
abbrev pub not_init : Text × Text
not_init = (codes "io.nanocl.not-init-c", codes "true")

module _ {World : Type 0} (b : Backend World) where
  -- a Docker call whose failure is returned in a context
  unfoldable pub docker_in : Text → DockerCall → Effect World (Unit {0})
  docker_in context c w = (in_context context (b.docker c w).0, (b.docker c w).1)

  abbrev delete_failed : Text → DockerError → IoError
  delete_failed pk e =
      with_context ErrorKind.interrupted (codes "DeleteProcess")
        (codes "Error while deleting container " ++ (pk ++ (codes ": " ++ message e)))

  -- A container that Docker does not know counts as removed.
  pub removal : Text → DockerResult → Result (Unit {0})
  removal pk done = ok tt
  removal pk (docker_error (response status_code m)) =
      if status_code == 404 then ok tt else err (delete_failed pk (response status_code m))
  removal pk (docker_error (failed m)) = err (delete_failed pk (failed m))

  unfoldable pub delete_instance : Text → Bool → Effect World (Unit {0})
  unfolding removal
  delete_instance pk force = do
    (λ w. (
      removal pk (b.docker (remove_container pk force) w).0,
      (b.docker (remove_container pk force) w).1,
    ))
    b.write (delete_process pk)

  unfoldable pub delete_instances : List Text → Effect World (Unit {0})
  delete_instances instances = run_all (λ id. delete_instance id true) instances

  unfoldable pub kill_by_kind_key : Text → Text → Effect World (Unit {0})
  kill_by_kind_key pk signal = do
    processes ← reading (b.read_processes pk none)
    for_each (λ p. docker_in (codes "KillProcess") (kill_container p.key signal)) processes

  unfoldable pub restart_instances : Text → ProcessKind → Effect World (Unit {0})
  restart_instances pk kind = do
    processes ← reading (b.read_processes pk none)
    for_each (λ p. docker_in (codes "RestartProcess") (restart_container p.key)) processes
    emit b pk kind NativeEventAction.restart

  unfoldable pub stop_instances : Text → ProcessKind → Effect World (Unit {0})
  stop_instances kind_pk kind = do
    processes ← reading (b.read_processes kind_pk none)
    for_each (λ p. docker_in (codes "StopProcess") (stop_container (unwrap_or p.id []))) processes
    update_actual_status b kind_pk ObjPsStatusKind.stop
    emit b kind_pk kind NativeEventAction.stop

  unfoldable pub start_instances : Text → ProcessKind → Effect World (Unit {0})
  start_instances kind_key kind = do
    processes ← reading (b.read_processes kind_key (some not_init))
    for_each (λ p. docker_in (codes "StartProcess") (start_container (unwrap_or p.id []))) processes
    update_actual_status b kind_key ObjPsStatusKind.start
    emit b kind_key kind NativeEventAction.start
