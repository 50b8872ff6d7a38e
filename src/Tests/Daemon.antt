-- ===== src/Tests/Daemon.antt =====
-- The daemon on a cargo, a virtual machine and a job in memory.
use nanocl.Prelude.{codes, true, none, some, List, [], ◌∷◌, map, unwrap_or, ◌≡◌, ◌⊎◌}
use nanocl.Io.{IoError, ok, err}
use nanocl.System.Status.{ObjPsStatusKind}
use nanocl.System.Action.{NativeEventAction}
use nanocl.Process.{Process, ProcessKind, ContainerState, natural}
use nanocl.Backend.{stop_container}
use nanocl.Backend.Laws.{Seen}
use nanocl.Backend.Observed.{Observed}
use nanocl.Container.Process.{stop_instances}
use nanocl.Container.Process.Reports.{Ended, stop_instances-Ended}
use nanocl.DockerEvent.{EventMessage, container, exec_docker}
use nanocl.DockerEvent.Observes.{exec_docker-Observed}
use nanocl.Tests.Memory.{Memory, memory, memory-IsLawful, world, process, started, web_key}

abbrev see : Memory → Seen
see m = memory-IsLawful.see m

abbrev up : ContainerState
up = record {
  restarting = none;
  running = some true;
  finished_at = none;
  exit_code = none;
  error = none;
}

abbrev ended : ContainerState
ended = record {
  restarting = none;
  running = none;
  finished_at = some (codes "2024-11-01T10:00:00Z");
  exit_code = some (natural 1);
  error = none;
}

-- two containers of the cargo run
abbrev two : List Process
two = process (codes "web-1") web_key up ∷ process (codes "web-2") web_key up ∷ []

abbrev running : Memory
running = world two started

stop_instances-Ended_example :
    ((e : IoError) × (stop_instances memory web_key ProcessKind.cargo running ≡ (err e, running)))
    ⊎ ((ps : List Process) × (memory.read_processes web_key none running ≡ ok ps)
        × Ended memory web_key ObjPsStatusKind.stop NativeEventAction.stop
            (map (λ p. stop_container (unwrap_or p.id [])) ps)
            (see running)
            (stop_instances memory web_key ProcessKind.cargo running).0
            (see (stop_instances memory web_key ProcessKind.cargo running).1))
stop_instances-Ended_example =
    stop_instances-Ended memory memory-IsLawful web_key ProcessKind.cargo running

-- a container of the cargo dies
abbrev died : EventMessage
died = record {
  typ = some container;
  action = some (codes "die");
  actor = some (record {
    id = some (codes "web-1");
    attributes = some (
        (codes "io.nanocl", codes "enabled")
        ∷ (codes "io.nanocl.kind", codes "cargo")
        ∷ (codes "io.nanocl.c", web_key)
        ∷ (codes "name", codes "web-1")
        ∷ []);
  });
}

exec_docker-Observed_example : Observed (see running) (see (exec_docker memory died running).1)
exec_docker-Observed_example = exec_docker-Observed memory memory-IsLawful died running
