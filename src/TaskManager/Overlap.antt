-- ===== src/TaskManager/Overlap.antt =====
-- What `wait_task` does not wait for: a task that failed is taken out of the map before its
-- `on_error` has run.
use nanocl.Prelude.{Text, =ₜ_refl, true, ◌≡◌, refl}
use nanocl.System.Action.{NativeEventAction}
use nanocl.System.Event.{EventActorKind}
use nanocl.TaskManager.{
  ObjTask, running, failing, System, start, ready, spawn, insert, leave, go, task_key, waits, free,
  add, added, fail, Reachable, begin, step,
}

module _ (kind : EventActorKind) (key : Text) (action : NativeEventAction) where
  -- the first event, its task added, and the task failed
  abbrev once : System
  once = go (ready (task_key kind key)) start

  abbrev first : ObjTask
  first = record { kind = action; fut = 0 }

  abbrev failed : System
  failed =
      leave 0 failing (insert (task_key kind key) first (spawn (task_key kind key) action once))

  -- the second event
  abbrev again : System
  again = spawn (task_key kind key) action (go (ready (task_key kind key)) failed)

  module _ (h : waits kind ≡ true) where
    failed-Reachable : Reachable failed
    failed-Reachable =
        step _ _
          (step _ _
            (step _ _ (step _ _ begin (free kind key refl h refl))
              (add (task_key kind key) action refl))
            (added (task_key kind key) first refl))
          (fail 0 refl)

    again-Reachable : Reachable again
    again-Reachable =
        step _ _
          (step _ _ failed-Reachable (free kind key refl h (rw (=ₜ_refl (task_key kind key)))))
          (add (task_key kind key) action refl)

    -- While `on_error` of a task of a cargo or a virtual machine has not run, the next task of the
    -- same object may run already: such a state is reachable.
    pub overlap :
        (s : System) × Reachable s
        × (s.phase 0 ≡ failing)
        × (s.phase 1 ≡ running)
        × (s.key_of 0 ≡ task_key kind key)
        × (s.key_of 1 ≡ task_key kind key)
    overlap = (again, again-Reachable, refl, refl, refl, refl)
