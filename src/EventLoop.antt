-- ===== src/EventLoop.antt =====
-- bin/nanocld/src/system/event.rs: what the event loop does with an event. The task that an event
-- leads to is returned, beside what is done first with the task that is there under its key.
pub mod Handled
pub mod Ttl
use nanocl.Prelude.{
  ℕ, zero, suc, Text, codes, ◌=ₜ◌, Option, none, some, List, [], ◌∷◌, unwrap_or, if◌then◌else◌,
}
use nanocl.Io.{IoError, Result, ok, err, ErrorKind}
use nanocl.System.Status.{ObjPsStatusKind}
use nanocl.System.Action
use nanocl.System.Action.{NativeEventAction}
use nanocl.System.Event.{
  Event, EventActor, EventActorKind, EventKind, Value, string, not_string, cargo, vm, job, secret,
}
use nanocl.Process.{Process, ProcessKind}
use nanocl.Workload.{Cargo, Job, cargo_actor, job_actor}
use nanocl.Effect.{Effect, pure, raise, reading, ignoring, for_each, ◌>>=◌, ◌>>◌}
use nanocl.Backend.{Backend}
use nanocl.Status.Table.{update_actual_status}
use nanocl.SystemState.{emit_normal_native_action_sync, emit_error_native_action}
use nanocl.Container.Count.{count_status}
use nanocl.TaskManager.{task_key}

-- The tasks of bin/nanocld/src/tasks: `create_start_task` and the others, for an object's key.
pub data TaskOp : Type 0 where
  start stop update delete : TaskOp

pub record Task : Type 0 where
  pub object : ProcessKind
  pub op : TaskOp
  pub key : Text

abbrev task : ProcessKind → TaskOp → Text → Option Task
task object op key = some (record { object = object; op = op; key = key })

unfoldable pub starting : Text → EventActorKind → Option Task
starting key job = task ProcessKind.job start key
starting key cargo = task ProcessKind.cargo start key
starting key vm = task ProcessKind.vm start key
starting key _ = none

unfoldable pub stopping : Text → EventActorKind → Option Task
stopping key cargo = task ProcessKind.cargo stop key
stopping key vm = task ProcessKind.vm stop key
stopping key job = task ProcessKind.job stop key
stopping key _ = none

unfoldable pub updating : Text → EventActorKind → Option Task
updating key cargo = task ProcessKind.cargo update key
updating key vm = task ProcessKind.vm update key
updating key _ = none

unfoldable pub destroying : Text → EventActorKind → Option Task
destroying key cargo = task ProcessKind.cargo delete key
destroying key vm = task ProcessKind.vm delete key
destroying key job = task ProcessKind.job delete key
destroying key _ = none

-- What is done first with the task manager, under the key of the task.
pub data First : Type 0 where
  wait_task remove_task go_on : First

unfoldable pub first : EventActorKind → NativeEventAction → First
first cargo _ = wait_task
first vm _ = wait_task
first job NativeEventAction.destroying = remove_task
first _ _ = go_on

-- What `exec_event` does with the task manager: nothing, or what comes first and then `add_task`.
pub data Plan : Type 0 where
  ignored : Plan
  handled : First → Text → NativeEventAction → Option Task → Plan

-- `attributes.get("io.nanocl.j")` and `as_str().unwrap_or_default()`
abbrev as_str : Value → Text
as_str (string t) = t
as_str not_string = codes ""

unfoldable pub job_of : List (Text × Value) → Option Text
job_of [] = none
job_of ((k, v) ∷ attributes) =
    let rest = job_of attributes in if k =ₜ codes "io.nanocl.j" then some (as_str v) else rest

-- A panic ends the computation, as an error does.
abbrev panic : IoError
panic = record {
  context = none;
  kind = ErrorKind.other;
  message = codes "called `Option::unwrap()` on a `None` value";
}

abbrev pub deletion : Option ℕ → Text → Option (Text × ℕ)
deletion none name = none
deletion (some ttl) name = some (name, ttl)

module _ {World : Type 0} (b : Backend World) where
  abbrev pub or_panic : {A : Type 0} → Option A → Effect World A
  or_panic none = raise panic
  or_panic (some a) = pure a

  -- what a job that does not run any more is reported as
  unfoldable pub finish_job : Job → ℕ → Effect World (Unit {0})
  finish_job item zero = do
    update_actual_status b item.name ObjPsStatusKind.finish
    emit_normal_native_action_sync b (job_actor item) NativeEventAction.finish
  finish_job item (suc _) = do
    update_actual_status b item.name ObjPsStatusKind.fail
    emit_normal_native_action_sync b (job_actor item) NativeEventAction.fail

  -- the counts are (total, failed, success, running); with a `ttl`, the job and the seconds after
  -- which it is to be deleted
  abbrev pub end_job : Job → (ℕ × ℕ × ℕ × ℕ) → Effect World (Option (Text × ℕ))
  end_job item (_, failed, _, suc _) = pure none
  end_job item (_, failed, _, zero) = do finish_job item failed; pure (deletion item.ttl item.name)

  unfoldable pub count_job : Job → Effect World (Option (Text × ℕ))
  count_job item = do
    instances ← reading (b.read_processes item.name none)
    counts ← or_panic (count_status instances)
    end_job item counts

  -- `Finish | Fail` is done already
  abbrev pub unless_done : ObjPsStatusKind → Job → Effect World (Option (Text × ℕ))
  unless_done ObjPsStatusKind.finish item = pure none
  unless_done ObjPsStatusKind.fail item = pure none
  unless_done _ item = count_job item

  abbrev pub job_ttl_of : Option Text → Effect World (Option (Text × ℕ))
  job_ttl_of none = pure none
  job_ttl_of (some job_id) = do
    item ← reading (b.read_job job_id)
    unless_done item.status.actual item

  -- the job that is to be deleted, after some seconds
  unfoldable pub job_ttl : EventActor → Effect World (Option (Text × ℕ))
  job_ttl actor = job_ttl_of (job_of (unwrap_or actor.attributes []))

  unfoldable pub update_cargo : Cargo → Effect World (Unit {0})
  update_cargo item = do
    ignoring (update_actual_status b item.cargo_key ObjPsStatusKind.updating)
    emit_normal_native_action_sync b (cargo_actor item) NativeEventAction.updating

  -- the event `update`, of a secret; the `unwrap` panics where reading fails
  unfoldable pub update_secret : Text → EventActorKind → Effect World (Option Task)
  update_secret key secret = do
    cargoes ← reading (b.cargoes_with_secret key)
    for_each update_cargo cargoes
    pure none
  update_secret key _ = pure none

  unfoldable pub task_of : NativeEventAction → Text → EventActor → Effect World (Option Task)
  task_of NativeEventAction.starting key actor = pure (starting key actor.kind)
  task_of NativeEventAction.stopping key actor = pure (stopping key actor.kind)
  task_of NativeEventAction.updating key actor = pure (updating key actor.kind)
  task_of NativeEventAction.update key actor = update_secret key actor.kind
  task_of NativeEventAction.destroying key actor = pure (destroying key actor.kind)
  task_of NativeEventAction.die key actor = do job_ttl actor; pure none
  task_of _ key actor = pure none

  unfoldable pub exec_actor : Text → EventActor → Effect World Plan
  exec_actor action actor = do
    let key = unwrap_or actor.key []
    action ← reading (λ _. Action.from_str action)
    task ← task_of action key actor
    pure (handled (first actor.kind action) (task_key actor.kind key) action task)

  abbrev pub exec_some : Text → Option EventActor → Effect World Plan
  exec_some action none = pure ignored
  exec_some action (some actor) = exec_actor action actor

  abbrev pub exec_kind : EventKind → Text → Option EventActor → Effect World Plan
  exec_kind EventKind.normal action actor = exec_some action actor
  exec_kind _ action actor = pure ignored

  unfoldable pub exec_event : Event → Effect World Plan
  exec_event e = exec_kind e.kind e.action e.actor

  abbrev failure : NativeEventAction → Option NativeEventAction
  failure NativeEventAction.starting = some NativeEventAction.start
  failure NativeEventAction.stopping = some NativeEventAction.stop
  failure NativeEventAction.updating = some NativeEventAction.update
  failure NativeEventAction.destroying = some NativeEventAction.destroy
  failure _ = none

  abbrev pub report_failure : Option NativeEventAction → EventActor → Text → Effect World (Unit {0})
  report_failure none actor e = pure tt
  report_failure (some action) actor e = do
    update_actual_status b (unwrap_or actor.key []) ObjPsStatusKind.fail
    emit_error_native_action b actor action (some e)

  -- the closure `on_error` of a task that failed with a message
  unfoldable pub on_error : NativeEventAction → EventActor → Text → Effect World (Unit {0})
  on_error action actor e = report_failure (failure action) actor e
