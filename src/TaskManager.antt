-- ===== src/TaskManager.antt =====
-- bin/nanocld/src/tasks/task_manager.rs, and how the event loop of bin/nanocld/src/system/event.rs
-- uses it. A task runs beside the loop: what both do between two awaits is one step.
pub mod Serial
pub mod Overlap
use nanocl.Prelude.{
  ℕ, suc, zero, Text, codes, ◌=ₜ◌, ◌==◌, starts_with, Bool, true, false, ◌||◌, Option, none, some,
  ◌∷◌, ◌++◌, ◌≡◌, if◌then◌else◌,
}
use nanocl.System.Action.{NativeEventAction}
use nanocl.System.Event.{EventActorKind, actor_kind_to_string, cargo, vm, job}

-- `fut` stands for the spawned future.
pub record ObjTask : Type 0 where
  pub kind : NativeEventAction
  pub fut : ℕ

-- A future runs the task; if that failed it runs `on_error`; then it is finished. An aborted one is
-- finished.
pub data Phase : Type 0 where
  unborn running failing finished : Phase

-- Where the event loop is: between events, in `wait_task` for a task, behind it, or in `add_task`
-- between the spawn of the task and its insertion.
pub data Loop : Type 0 where
  idle : Loop
  waiting : Text → ObjTask → Loop
  ready : Text → Loop
  inserting : Text → ObjTask → Loop

-- `tasks` is the map; the futures are numbered in the order of their creation.
pub record System : Type 0 where
  pub tasks : Text → Option ObjTask
  pub phase : ℕ → Phase
  pub key_of : ℕ → Text
  pub next : ℕ
  pub loop : Loop

abbrev pub put : {A : Type 0} → Text → A → (Text → A) → Text → A
put key a f j = if key =ₜ j then a else f j

abbrev pub set : {A : Type 0} → ℕ → A → (ℕ → A) → ℕ → A
set i a f j = if i == j then a else f j

abbrev pub start : System
start = record {
  tasks = λ _. none;
  phase = λ _. Phase.unborn;
  key_of = λ _. codes "";
  next = 0;
  loop = idle;
}

-- the future of `ObjTask::new`
abbrev pub spawn : Text → NativeEventAction → System → System
spawn key kind s = record {
  tasks = s.tasks;
  phase = set s.next Phase.running s.phase;
  key_of = set s.next key s.key_of;
  next = suc s.next;
  loop = inserting key (record { kind = kind; fut = s.next });
}

-- the end of `add_task`
abbrev pub insert : Text → ObjTask → System → System
insert key task s = record s { tasks = put key (some task) s.tasks; loop = idle }

abbrev pub remove_found : Text → Option ObjTask → System → System
remove_found key none s = s
remove_found key (some task) s = record s {
  tasks = put key none s.tasks;
  phase = set task.fut Phase.finished s.phase;
}

abbrev pub remove_task : Text → System → System
remove_task key s = remove_found key (s.tasks key) s

-- the end of the task, in its future
abbrev pub leave : ℕ → Phase → System → System
leave id p s = record s { tasks = put (s.key_of id) none s.tasks; phase = set id p s.phase }

abbrev pub go : Loop → System → System
go loop s = record s { loop = loop }

-- `format!("{}@{key}", &actor.kind)`
abbrev pub task_key : EventActorKind → Text → Text
task_key kind key = actor_kind_to_string kind ++ b'@' ∷ key

-- the kinds of which `exec_event` awaits the task of before
unfoldable pub waits : EventActorKind → Bool
waits cargo = true
waits vm = true
waits _ = false

pub data Step (s : System) : System → Type 0 where
  -- the loop takes an event of a cargo or a virtual machine
  busy :
      (kind : EventActorKind) (key : Text) (task : ObjTask)
      → s.loop ≡ idle
      → waits kind ≡ true
      → s.tasks (task_key kind key) ≡ some task
      → Step s (go (waiting (task_key kind key) task) s)
  free :
      (kind : EventActorKind) (key : Text)
      → s.loop ≡ idle
      → waits kind ≡ true
      → s.tasks (task_key kind key) ≡ none
      → Step s (go (ready (task_key kind key)) s)
  -- an event `destroying` of a job, and any other event
  drop :
      (key : Text)
      → s.loop ≡ idle
      → Step s (go (ready (task_key job key)) (remove_task (task_key job key) s))
  pass :
      (kind : EventActorKind) (key : Text)
      → s.loop ≡ idle
      → waits kind ≡ false
      → Step s (go (ready (task_key kind key)) s)
  -- `wait_task` sees that the task has finished, and removes it
  waited :
      (key : Text) (task : ObjTask)
      → s.loop ≡ waiting key task
      → s.phase task.fut ≡ Phase.finished
      → Step s (go (ready key) (remove_task key s))
  -- the event has no task
  skip : (key : Text) → s.loop ≡ ready key → Step s (go idle s)
  add : (key : Text) (kind : NativeEventAction) → s.loop ≡ ready key → Step s (spawn key kind s)
  added : (key : Text) (task : ObjTask) → s.loop ≡ inserting key task → Step s (insert key task s)
  -- the task is done; or it failed, and what then `on_error` does is done
  succeed : (id : ℕ) → s.phase id ≡ Phase.running → Step s (leave id Phase.finished s)
  fail : (id : ℕ) → s.phase id ≡ Phase.running → Step s (leave id Phase.failing s)
  handled :
      (id : ℕ)
      → s.phase id ≡ Phase.failing
      → Step s (record s { phase = set id Phase.finished s.phase })

pub data Reachable : System → Type 0 where
  begin : Reachable start
  step : (s t : System) → Reachable s → Step s t → Reachable t
