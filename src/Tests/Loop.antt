-- ===== src/Tests/Loop.antt =====
-- The event loop, and the tasks it starts.
use nanocl.Prelude.{ℕ, codes, none, some, [], starts_with, ◌≡◌, refl}
use nanocl.Io.{ok}
use nanocl.System.Action
use nanocl.System.Action.{NativeEventAction, to_string-from_str}
use nanocl.System.Event.{Event, EventActor, EventKind, cargo, actor_kind_to_string}
use nanocl.Process.{ProcessKind}
use nanocl.Workload.{cargo_actor}
use nanocl.Backend.Laws.{Seen}
use nanocl.SystemState.{normal_event}
use nanocl.EventLoop.{TaskOp, handled, wait_task, exec_event}
use nanocl.EventLoop.Handled.{exec_event-cargo}
use nanocl.TaskManager.{
  System, Reachable, begin, step, free, add, spawn, go, ready, start, task_key, waits, running,
  failing,
}
use nanocl.TaskManager.Serial.{Reachable-Single}
use nanocl.TaskManager.Overlap.{overlap}
use nanocl.Tests.Memory.{Memory, memory, memory-IsLawful, world, web, web_key, started}

abbrev see : Memory → Seen
see m = memory-IsLawful.see m

-- the event of a request for the cargo
abbrev event : NativeEventAction → Event
event action = record {
  key = codes "1";
  created_at = 0;
  expires_at = 86400;
  reporting_node = codes "node";
  reporting_controller = codes "nanocl.io/core";
  kind = EventKind.normal;
  action = Action.to_string action;
  reason = codes "state_sync";
  note = (normal_event memory (cargo_actor web) action).note;
  actor = some (cargo_actor web);
  related = none;
  metadata = none;
}

abbrev idle_world : Memory
idle_world = world [] started

exec_event-cargo_example : exec_event memory (event NativeEventAction.updating) idle_world ≡ (
  ok (
      handled wait_task
        (task_key cargo web_key)
        NativeEventAction.updating
        (some (record { object = ProcessKind.cargo; op = TaskOp.update; key = web_key }))),
  idle_world,
)
unfolding memory
exec_event-cargo_example =
    exec_event-cargo memory memory-IsLawful (event NativeEventAction.updating) web
      NativeEventAction.updating TaskOp.update idle_world refl refl

abbrev web_actor : EventActor
web_actor = cargo_actor web

-- a task of the cargo runs
abbrev busy_system : System
busy_system =
    spawn (task_key cargo web_key) NativeEventAction.starting
      (go (ready (task_key cargo web_key)) start)

Reachable-Single_example : ◌≡◌ {A = ℕ} 0 0
unfolding actor_kind_to_string starts_with waits
Reachable-Single_example =
    Reachable-Single busy_system 0 0
      (step _ _ (step _ _ begin (free cargo web_key refl refl refl))
        (add (task_key cargo web_key) NativeEventAction.starting refl))
      refl refl refl refl

overlap_example :
    (s : System) × Reachable s
    × (s.phase 0 ≡ failing)
    × (s.phase 1 ≡ running)
    × (s.key_of 0 ≡ task_key cargo web_key)
    × (s.key_of 1 ≡ task_key cargo web_key)
unfolding waits
overlap_example = overlap cargo web_key NativeEventAction.starting refl
