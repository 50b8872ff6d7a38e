-- ===== src/EventLoop/Handled.antt =====
-- What handling an event may change, and which task it leads to.
use nanocl.Prelude.{
  Text, ℕ, zero, suc, Option, none, some, some_injective, [], unwrap_or, ◌≡◌, refl, ap,
}
use nanocl.Io.{ok}
use nanocl.System.Status.{ObjPsStatusKind}
use nanocl.System.Action
use nanocl.System.Action.{NativeEventAction, from_str-to_string, IsNative}
use nanocl.System.Event.{Event, EventActor, EventActorKind, EventKind, cargo, secret}
use nanocl.Process.{ProcessKind}
use nanocl.Workload.{Cargo, Job, cargo_actor, job_actor}
use nanocl.Backend.{Backend}
use nanocl.Backend.Laws.{IsLawful, partial_of, Columns}
use nanocl.Backend.Observed.{
  Observed, Observes, pure-Observes, ignoring-Observes, reading-Observes, bind-Observes,
  then-Observes, for_each-Observes, update_actual_status-Observes, normal-Observes, same-Observed,
}
use nanocl.Status.Table.{report, update_actual_status-then}
use nanocl.SystemState.{normal_event, emit_error_native_action}
use nanocl.SystemState.Sent.{error-Emits, Emits-rows}
use nanocl.Container.Count.{count_status}
use nanocl.TaskManager.{task_key}
use nanocl.EventLoop.{
  TaskOp, ignored, handled, wait_task, or_panic, finish_job, end_job, count_job, job_of, job_ttl,
  job_ttl_of, exec_some, exec_kind, unless_done, update_cargo, update_secret, task_of, exec_actor,
  deletion, exec_event, on_error, report_failure, starting, stopping, updating, destroying, first,
}

module _ {World : Type 0} (b : Backend World) (l : IsLawful b) where
  or_panic-Observes : {A : Type 0} (o : Option A) → Observes b l (or_panic b o)
  or_panic-Observes none = record { run = λ w. same-Observed _ _ refl }
  or_panic-Observes (some a) = pure-Observes b l a

  finish_job-Observes : (item : Job) (failed : ℕ) → Observes b l (finish_job b item failed)
  unfolding finish_job
  finish_job-Observes item zero =
      then-Observes b l _ _ (update_actual_status-Observes b l item.name ObjPsStatusKind.finish)
        (normal-Observes b l (job_actor item) NativeEventAction.finish)
  finish_job-Observes item (suc _) =
      then-Observes b l _ _ (update_actual_status-Observes b l item.name ObjPsStatusKind.fail)
        (normal-Observes b l (job_actor item) NativeEventAction.fail)

  end_job-Observes : (item : Job) (c : ℕ × ℕ × ℕ × ℕ) → Observes b l (end_job b item c)
  end_job-Observes item (_, failed, _, suc _) = pure-Observes b l none
  end_job-Observes item (_, failed, _, zero) =
      then-Observes b l _ _ (finish_job-Observes item failed)
        (pure-Observes b l (deletion item.ttl item.name))

  count_job-Observes : (item : Job) → Observes b l (count_job b item)
  unfolding count_job
  count_job-Observes item = bind-Observes b l _ _ (reading-Observes b l _) (λ ps.
      bind-Observes b l _ _ (or_panic-Observes (count_status ps)) (λ c. end_job-Observes item c))

  update_cargo-Observes : (item : Cargo) → Observes b l (update_cargo b item)
  unfolding update_cargo
  update_cargo-Observes item =
      then-Observes b l _ _
        (ignoring-Observes b l _
          (update_actual_status-Observes b l item.cargo_key ObjPsStatusKind.updating))
        (normal-Observes b l (cargo_actor item) NativeEventAction.updating)

  unless_done-Observes : (k : ObjPsStatusKind) (item : Job) → Observes b l (unless_done b k item)
  unless_done-Observes ObjPsStatusKind.finish item = pure-Observes b l none
  unless_done-Observes ObjPsStatusKind.fail item = pure-Observes b l none
  unless_done-Observes _ item = count_job-Observes item

  job_ttl_of-Observes : (id : Option Text) → Observes b l (job_ttl_of b id)
  job_ttl_of-Observes none = pure-Observes b l none
  job_ttl_of-Observes (some id) =
      bind-Observes b l _ _ (reading-Observes b l _)
        (λ item. unless_done-Observes item.status.actual item)

  job_ttl-Observes : (actor : EventActor) → Observes b l (job_ttl b actor)
  unfolding job_ttl
  job_ttl-Observes actor = job_ttl_of-Observes (job_of (unwrap_or actor.attributes []))

  update_secret-Observes :
      (key : Text) (kind : EventActorKind) → Observes b l (update_secret b key kind)
  unfolding update_secret
  update_secret-Observes key secret = bind-Observes b l _ _ (reading-Observes b l _) (λ cargoes.
      then-Observes b l _ _ (for_each-Observes b l (update_cargo b) cargoes update_cargo-Observes)
        (pure-Observes b l none))
  update_secret-Observes key _ = pure-Observes b l none

  task_of-Observes :
      (action : NativeEventAction) (key : Text) (actor : EventActor)
      → Observes b l (task_of b action key actor)
  unfolding task_of
  task_of-Observes NativeEventAction.starting key actor = pure-Observes b l _
  task_of-Observes NativeEventAction.stopping key actor = pure-Observes b l _
  task_of-Observes NativeEventAction.updating key actor = pure-Observes b l _
  task_of-Observes NativeEventAction.update key actor = update_secret-Observes key actor.kind
  task_of-Observes NativeEventAction.destroying key actor = pure-Observes b l _
  task_of-Observes NativeEventAction.die key actor =
      then-Observes b l _ _ (job_ttl-Observes actor) (pure-Observes b l none)
  task_of-Observes _ key actor = pure-Observes b l none

  exec_actor-Observes :
      (action : Text) (actor : EventActor) → Observes b l (exec_actor b action actor)
  unfolding exec_actor
  exec_actor-Observes action actor =
      bind-Observes b l _ _ (reading-Observes b l _)
        (λ a. bind-Observes b l _ _ (task_of-Observes a _ actor) (λ t. pure-Observes b l _))

  exec_some-Observes :
      (action : Text) (actor : Option EventActor) → Observes b l (exec_some b action actor)
  exec_some-Observes action none = pure-Observes b l ignored
  exec_some-Observes action (some actor) = exec_actor-Observes action actor

  exec_kind-Observes :
      (kind : EventKind) (action : Text) (actor : Option EventActor)
      → Observes b l (exec_kind b kind action actor)
  exec_kind-Observes EventKind.normal action actor = exec_some-Observes action actor
  exec_kind-Observes _ action actor = pure-Observes b l ignored

  -- What the loop does with an event, before its task, changes what is wanted of no object, and does
  -- not make Docker change a container, whatever fails.
  pub exec_event-Observed :
      (e : Event) (w : World) → Observed (l.see w) (l.see (exec_event b e w).1)
  unfolding exec_event
  exec_event-Observed e w = (exec_kind-Observes e.kind e.action e.actor).run w

  -- The operation of a request.
  abbrev pub op_of : NativeEventAction → Option TaskOp
  op_of NativeEventAction.starting = some TaskOp.start
  op_of NativeEventAction.stopping = some TaskOp.stop
  op_of NativeEventAction.updating = some TaskOp.update
  op_of NativeEventAction.destroying = some TaskOp.delete
  op_of _ = none

  exec_actor-cargo :
      (item : Cargo) (action : NativeEventAction) (op : TaskOp) (w : World)
      → op_of action ≡ some op
      → exec_actor b (Action.to_string action) (cargo_actor item) w ≡ (
        ok (
            handled wait_task
              (task_key cargo item.cargo_key)
              action
              (some (record { object = ProcessKind.cargo; op = op; key = item.cargo_key }))),
        w,
      )
  unfolding exec_actor task_of starting stopping updating destroying first cargo_actor
  exec_actor-cargo item NativeEventAction.starting op w h =
      rw (from_str-to_string NativeEventAction.starting tt, some_injective h)
  exec_actor-cargo item NativeEventAction.stopping op w h =
      rw (from_str-to_string NativeEventAction.stopping tt, some_injective h)
  exec_actor-cargo item NativeEventAction.updating op w h =
      rw (from_str-to_string NativeEventAction.updating tt, some_injective h)
  exec_actor-cargo item NativeEventAction.destroying op w h =
      rw (from_str-to_string NativeEventAction.destroying tt, some_injective h)
  exec_actor-cargo item _ op w h = cc

  -- The event that requests an operation of a cargo leads to the task of that operation, of that
  -- cargo, under the cargo's task key, for which the task before is awaited.
  pub exec_event-cargo :
      (e : Event) (item : Cargo) (action : NativeEventAction) (op : TaskOp) (w : World)
      → partial_of e ≡ normal_event b (cargo_actor item) action
      → op_of action ≡ some op
      → exec_event b e w ≡ (
        ok (
            handled wait_task
              (task_key cargo item.cargo_key)
              action
              (some (record { object = ProcessKind.cargo; op = op; key = item.cargo_key }))),
        w,
      )
  unfolding exec_event
  exec_event-cargo e item action op w h k =
      rw (ap (λ p. p.kind) h, ap (λ p. p.action) h, ap (λ p. p.actor) h)
        (exec_actor-cargo item action op w k)

  report_failure_lem :
      (action : NativeEventAction) (actor : EventActor) (e : Text) (w : World) (c : Columns)
      → (l.see w).rows (unwrap_or actor.key []) ≡ some c
      → (report_failure b (some action) actor e w).0 ≡ ok tt
      → (l.see (report_failure b (some action) actor e w).1).rows (unwrap_or actor.key [])
        ≡ some (report ObjPsStatusKind.fail c)
  report_failure_lem action actor e w c k r =
      update_actual_status-then b l (unwrap_or actor.key []) ObjPsStatusKind.fail
        (emit_error_native_action b actor action (some e)) w c
        (λ v. Emits-rows _ _ _ (error-Emits b l actor action (some e) v)) k r

  -- When a task that does what was requested fails, and that is reported without an error, the actual
  -- status of its object becomes `fail`.
  pub on_error_lem :
      (action : NativeEventAction) (op : TaskOp) (actor : EventActor) (e : Text) (w : World)
      (c : Columns)
      → op_of action ≡ some op
      → (l.see w).rows (unwrap_or actor.key []) ≡ some c
      → (on_error b action actor e w).0 ≡ ok tt
      → (l.see (on_error b action actor e w).1).rows (unwrap_or actor.key [])
        ≡ some (report ObjPsStatusKind.fail c)
  unfolding on_error
  on_error_lem NativeEventAction.starting op actor e w c h k r =
      report_failure_lem NativeEventAction.start actor e w c k r
  on_error_lem NativeEventAction.stopping op actor e w c h k r =
      report_failure_lem NativeEventAction.stop actor e w c k r
  on_error_lem NativeEventAction.updating op actor e w c h k r =
      report_failure_lem NativeEventAction.update actor e w c k r
  on_error_lem NativeEventAction.destroying op actor e w c h k r =
      report_failure_lem NativeEventAction.destroy actor e w c k r
  on_error_lem _ op actor e w c h k r = cc
