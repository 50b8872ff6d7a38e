-- ===== src/TaskManager/Serial.antt =====
-- Which tasks of one cargo or virtual machine run at a time.
mod Invariant
pub use Invariant.{is_service}
use nanocl.Prelude.{
  ℕ, Text, codes, ◌=ₜ◌, =ₜ_refl, =ₜ_sound, ◌==◌, starts_with, Bool, true, Bool-cases, ◌||◌, none,
  some, ==_iff, Option-cases, false≢true, ◌≡◌, ◌≢◌, refl, sym, ap, ◌∙◌, ◌⊎◌, inl, inr,
  some_injective,
}
use nanocl.System.Action.{NativeEventAction}
use nanocl.System.Event.{EventActorKind, actor_kind_to_string, cargo, vm, job}
use nanocl.TaskManager.{
  ObjTask, Phase, running, finished, failing, Loop, idle, waiting, ready, inserting, System, set,
  start, spawn, insert, remove_task, leave, go, task_key, waits, Step, busy, free, drop, pass,
  waited, skip, add, added, succeed, fail, handled, Reachable, begin, step,
}
use nanocl.TaskManager.Serial.Invariant.{
  is_service-task_key, Inv, start-Inv, finished≢running, failing≢running, Single, Inv-Single,
  set_running, remove-held, leave-held, leave-Inv,
}

remove_task_key_of : (key : Text) (s : System) → (remove_task key s).key_of ≡ s.key_of
remove_task_key_of key s = elim (Option-cases (s.tasks key)) [ inl e ↦ rw e | inr (t, e) ↦ rw e ]

removed : (key : Text) (s : System) → (remove_task key s).tasks key ≡ none
removed key s = elim (Option-cases (s.tasks key)) [
  | inl e ↦ rw e e
  | inr (t, e) ↦ rw (e, =ₜ_refl key)
]

ready_injective : {j k : Text} → ready j ≡ ready k → j ≡ k
ready_injective h = cc

-- after a removal no task of the key runs
remove-Inv :
    (key : Text) (s : System) (v : Inv s)
    → ((k : Text) (t : ObjTask) → s.loop ≡ inserting k t → ⊥)
    → Inv (go (ready key) (remove_task key s))
remove-Inv key s v quiet = record {
  held = λ j r k.
      rw (remove_task_key_of key s)
        (inl (remove-held s v key j quiet r (rw (remove_task_key_of key s) at k)));
  clear = λ k j l m q r.
      let e : s.key_of j ≡ key = rw (remove_task_key_of key s) at q ∙ sym (ready_injective l) in
      let (t, h, f) = remove-held s v key j quiet r (ap is_service (e ∙ ready_injective l) ∙ m) in
      let bad : none ≡ some t = sym (removed key s) ∙ ap (remove_task key s).tasks (sym e) ∙ h in
      cc;
  only = λ k t j l. cc;
}

calm-Inv :
    (s : System) (v : Inv s) (l : Loop)
    → ((k : Text) (t : ObjTask) → s.loop ≡ inserting k t → ⊥)
    → ((k : Text) (t : ObjTask) → l ≡ inserting k t → ⊥)
    → ((k : Text) (id : ℕ)
        → l ≡ ready k
        → is_service k ≡ true
        → s.key_of id ≡ k
        → s.phase id ≡ running
        → ⊥)
    → Inv (go l s)
calm-Inv s v l quiet still clear = record {
  held = λ j r k. elim (v.held j r k) [
    | inl x ↦ inl x
    | inr (t, m, f) ↦ absurd (quiet (s.key_of j) t m)
  ];
  clear = clear;
  only = λ k t j m. absurd (still k t m);
}

module _ (s : System) (v : Inv s) where
  quiet_in :
      (l : Loop)
      → ((k : Text) (t : ObjTask) → l ≡ inserting k t → ⊥)
      → s.loop ≡ l
      → (k : Text) (t : ObjTask) → s.loop ≡ inserting k t
      → ⊥
  quiet_in l n h k t e = n k t (sym h ∙ e)

  free-Inv :
      (key : Text)
      → s.loop ≡ idle
      → (is_service key ≡ true → s.tasks key ≡ none)
      → Inv (go (ready key) s)
  free-Inv key h none_of =
      let quiet = quiet_in idle (λ k t e. cc) h in
      calm-Inv s v (ready key) quiet (λ k t e. cc)
        (λ k id l m q r.
          let e = q ∙ sym (ready_injective l) in
          elim (v.held id r (ap is_service q ∙ m)) [
            | inl (t, g, f) ↦
                let bad : none ≡ some t =
                  sym (none_of (ap is_service (ready_injective l) ∙ m)) ∙ sym (ap s.tasks e) ∙ g in
                cc
            | inr (t, g, f) ↦ absurd (quiet (s.key_of id) t g)
          ])

  spawn-Inv : (key : Text) (kind : NativeEventAction) → s.loop ≡ ready key → Inv (spawn key kind s)
  spawn-Inv key kind h = record {
    held = λ j r k. elim (Bool-cases (s.next == j)) [
      | inl e ↦ inr (record { kind = kind; fut = s.next }, rw e, (==_iff s.next j).0 e)
      | inr e ↦ elim (v.held j (rw e at r) (rw e at k)) [
        | inl x ↦ rw e (inl x)
        | inr (t, l, f) ↦ absurd (quiet_in (ready key) (λ k t e. cc) h (s.key_of j) t l)
      ]
    ];
    clear = λ k j l. cc;
    only = λ k t j l m q r. elim (Bool-cases (s.next == j)) [
      | inl e ↦ sym ((==_iff s.next j).0 e) ∙ cc
      | inr e ↦
          let key_eq : key ≡ k = cc in
          absurd (v.clear k j (h ∙ ap ready key_eq) m (rw e at q) (rw e at r))
    ];
  }

  insert-Inv : (key : Text) (task : ObjTask) → s.loop ≡ inserting key task → Inv (insert key task s)
  insert-Inv key task h = record {
    held = λ j r k. elim (Bool-cases (key =ₜ s.key_of j)) [
      | inl e ↦
          let q = =ₜ_sound key (s.key_of j) e in
          inl (task, rw e, sym (v.only key task j h (ap is_service q ∙ k) (sym q) r))
      | inr e ↦ elim (v.held j r k) [
        | inl x ↦ rw e (inl x)
        | inr (t, l, f) ↦
            let g : inserting key task ≡ inserting (s.key_of j) t = sym h ∙ l in
            let q : key ≡ s.key_of j = cc in
            absurd (false≢true (sym e ∙ ap (λ k. key =ₜ k) (sym q) ∙ =ₜ_refl key))
      ]
    ];
    clear = λ k j l. cc;
    only = λ k t j l. cc;
  }

Step-Inv : (s t : System) → Inv s → Step s t → Inv t
Step-Inv s _ v (busy kind key task h k e) =
    calm-Inv s v _ (quiet_in s v idle (λ k t e. cc) h) (λ k t e. cc) (λ k id e. cc)
Step-Inv s _ v (free kind key h k e) = free-Inv s v (task_key kind key) h (λ _. e)
Step-Inv s _ v (drop key h) = remove-Inv (task_key job key) s v (quiet_in s v idle (λ k t e. cc) h)
Step-Inv s _ v (pass kind key h k) =
    free-Inv s v (task_key kind key) h
      (λ m. absurd (false≢true (sym k ∙ sym (is_service-task_key kind key) ∙ m)))
Step-Inv s _ v (waited key task h e) =
    remove-Inv key s v (quiet_in s v (waiting key task) (λ k t e. cc) h)
Step-Inv s _ v (skip key h) =
    calm-Inv s v idle (quiet_in s v (ready key) (λ k t e. cc) h) (λ k t e. cc) (λ k id e. cc)
Step-Inv s _ v (add key kind h) = spawn-Inv s v key kind h
Step-Inv s _ v (added key task h) = insert-Inv s v key task h
Step-Inv s _ v (succeed id h) = leave-Inv s v id finished h finished≢running
Step-Inv s _ v (fail id h) = leave-Inv s v id failing h failing≢running
Step-Inv s _ v (handled id h) = record {
  held = λ j r k. v.held j (set_running s v id finished j finished≢running r).0 k;
  clear = λ key j l k q r. v.clear key j l k q (set_running s v id finished j finished≢running r).0;
  only =
      λ key t j l k q r. v.only key t j l k q (set_running s v id finished j finished≢running r).0;
}

Reachable-Inv : (s : System) → Reachable s → Inv s
Reachable-Inv _ begin = start-Inv
Reachable-Inv _ (step s t r x) = Step-Inv s t (Reachable-Inv s r) x

-- In every reachable state of the event loop and the task manager, at most one future runs a task
-- for a cargo or a virtual machine: two that run for the same key are the same future.
pub Reachable-Single :
    (s : System) (i j : ℕ)
    → Reachable s
    → is_service (s.key_of i) ≡ true
    → s.phase i ≡ running
    → s.phase j ≡ running
    → s.key_of i ≡ s.key_of j
    → i ≡ j
Reachable-Single s i j r = Inv-Single s (Reachable-Inv s r) i j
