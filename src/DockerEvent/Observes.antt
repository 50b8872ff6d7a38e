-- ===== src/DockerEvent/Observes.antt =====
-- What Docker's events may change.
use nanocl.Prelude.{
  Text, codes, ◌=ₜ◌, starts_with, Bool, true, false, Bool-cases, some, sym, arith, some_injective,
  ◌≡◌, refl, ap, ◌∙◌, ◌||◌, inl, inr, Option-cases,
}
use nanocl.Io.{Result, ok, Result-cases}
use nanocl.System.Status
use nanocl.System.Status.{ObjPsStatusKind}
use nanocl.System.Action.{NativeEventAction}
use nanocl.System.Event.{EventActorKind, EventPartial, cargo, vm}
use nanocl.Workload.{cargo_actor, vm_actor}
use nanocl.Effect.{reading, ◌>>=◌}
use nanocl.Backend.{Backend, delete_process, update_process}
use nanocl.Backend.Laws.{Columns, IsLawful, columns}
use nanocl.Backend.Observed.{
  Observed, same-Observed, pure-Observes, if-Observes, ignoring-Observes, Observes,
  reading-Observes, write-Observes, bind-Observes, then-Observes, update_actual_status-Observes,
  error-Observes, spawn-Observes,
}
use nanocl.Status.{ObjPsStatusDb}
use nanocl.Status.Table.{update_actual_status, report, update_actual_status_lem}
use nanocl.SystemState.Sent.{error-Emits}
use nanocl.SystemState.{emit_error_native_action}
use nanocl.DockerEvent.{
  EventMessage, target, started, on_start, on_die, died, sync, failed_unless_stopped, take_action,
  exec_docker,
}

module _ {World : Type 0} (b : Backend World) (l : IsLawful b) where
  started-Observes :
      (kind : EventActorKind) (key status : Text) → Observes b l (started b kind key status)
  unfolding started
  started-Observes cargo key status =
      if-Observes b l _ _ _ (update_actual_status-Observes b l key ObjPsStatusKind.start)
        (pure-Observes b l tt)
  started-Observes vm key status =
      if-Observes b l _ _ _ (update_actual_status-Observes b l key ObjPsStatusKind.start)
        (pure-Observes b l tt)
  started-Observes _ key status = pure-Observes b l tt

  on_start-Observes : (kind : EventActorKind) (key : Text) → Observes b l (on_start b kind key)
  unfolding on_start
  on_start-Observes kind key =
      bind-Observes b l _ _ (reading-Observes b l _) (λ s. started-Observes kind key s.actual)

  failed_unless_stopped-Observes :
      (kind : EventActorKind) (key name status : Text)
      → Observes b l (failed_unless_stopped b kind key name status)
  unfolding failed_unless_stopped
  failed_unless_stopped-Observes cargo key name status =
      if-Observes b l _ _ _
        (then-Observes b l _ _ (update_actual_status-Observes b l key ObjPsStatusKind.fail) (
          bind-Observes b l _ _ (reading-Observes b l _)
            (λ item. error-Observes b l (cargo_actor item) NativeEventAction.die _)))
        (pure-Observes b l tt)
  failed_unless_stopped-Observes vm key name status =
      if-Observes b l _ _ _
        (then-Observes b l _ _ (update_actual_status-Observes b l key ObjPsStatusKind.fail) (
          bind-Observes b l _ _ (reading-Observes b l _)
            (λ item. error-Observes b l (vm_actor item) NativeEventAction.die _)))
        (pure-Observes b l tt)
  failed_unless_stopped-Observes _ key name status = pure-Observes b l tt

  on_die-Observes :
      (kind : EventActorKind) (key name : Text) → Observes b l (on_die b kind key name)
  unfolding on_die
  on_die-Observes kind key name =
      if-Observes b l _ _ _
        (bind-Observes b l _ _ (reading-Observes b l _)
          (λ s. failed_unless_stopped-Observes kind key name s.wanted))
        (pure-Observes b l tt)

  sync-Observes : (event : EventPartial) (id name : Text) → Observes b l (sync b event id name)
  unfolding sync
  sync-Observes event id name = then-Observes b l _ _ (spawn-Observes b l event) (
      bind-Observes b l (reading (b.inspect_container id))
        (λ x v. b.write (update_process id (b.now v) name x) v) (reading-Observes b l _)
        (λ instance. record {
          run = λ w. (write-Observes b l (update_process id (b.now w) name instance)).run w;
        }))

  take_action-Observes :
      (kind : EventActorKind) (key id name action : Text) (event : Text → EventPartial)
      → Observes b l (take_action b kind key id name action event)
  unfolding take_action
  take_action-Observes kind key id name action event =
      if-Observes b l _ _ _
        (then-Observes b l _ _ (on_start-Observes kind key) (sync-Observes _ id name))
        (if-Observes b l _ _ _
          (then-Observes b l _ _ (on_die-Observes kind key name) (sync-Observes _ id name))
          (if-Observes b l _ _ _
            (then-Observes b l _ _ (spawn-Observes b l _)
              (ignoring-Observes b l _ (write-Observes b l (delete_process id))))
            (if-Observes b l _ _ _ (spawn-Observes b l _) (sync-Observes _ id name))))

  -- No event of Docker changes what is wanted of any object, or makes the daemon call Docker to
  -- change a container, whatever fails.
  pub exec_docker-Observed :
      (event : EventMessage) (w : World) → Observed (l.see w) (l.see (exec_docker b event w).1)
  unfolding exec_docker
  exec_docker-Observed event w = elim (Option-cases (target event)) [
    | inl h ↦ rw h (same-Observed _ _ refl)
    | inr (t, h) ↦ rw h ((take_action-Observes t.0 t.1 _ _ _ _).run w)
  ]

  abbrev failed : Text → Text → World → Result (Unit {0}) × World
  failed key name = reading (b.read_cargo key) >>= (λ item.
      emit_error_native_action b (cargo_actor item) NativeEventAction.die (died b name))

  failed-see : (key name : Text) (w : World) → (l.see (failed key name w).1).rows ≡ (l.see w).rows
  failed-see key name w = elim (Result-cases (b.read_cargo key w)) [
    | inr (e, h) ↦ rw h
    | inl (item, h) ↦
        rw h (elim (error-Emits b l (cargo_actor item) NativeEventAction.die (died b name) w) [
          | inl k ↦ ap (λ s. s.rows) k
          | inr k ↦ ap (λ s. s.rows) k
        ])
  ]

  abbrev is_temporary : Text → Bool
  is_temporary name = starts_with (codes "tmp-") name || starts_with (codes "init-") name

  module _ (key name : Text) (w : World) (c : Columns) (h : (l.see w).rows key ≡ some c) where
    wanted_eq : (r : ObjPsStatusDb) → b.read_status key w ≡ ok r → columns r ≡ c
    wanted_eq r k = some_injective (sym (l.read_ok key w r k) ∙ h)

    -- When a container of a cargo dies that is an old or an init container, or whose cargo is wanted
    -- to be stopped, then nothing is changed.
    pub on_die_expected :
        (is_temporary name || (c.wanted =ₜ Status.to_string ObjPsStatusKind.stop)) ≡ true
        → l.see (on_die b cargo key name w).1 ≡ l.see w
    unfolding on_die failed_unless_stopped
    on_die_expected t = elim (Bool-cases (starts_with (codes "tmp-") name)) [
      | inl p ↦ rw p
      | inr p ↦ elim (Bool-cases (starts_with (codes "init-") name)) [
        | inl q ↦ rw (p, q)
        | inr q ↦ elim (Result-cases (b.read_status key w)) [
          | inr (e, r) ↦ rw (p, q, r)
          | inl (s, r) ↦
              let wanted =
                ap (λ c. c.wanted =ₜ Status.to_string ObjPsStatusKind.stop) (wanted_eq s r)
                ∙ rw (p, q) at t in
              rw (p, q, r, wanted)
        ]
      ]
    ]

    -- Of another container of the cargo, the handling, if it succeeds, reports the actual status
    -- `fail`.
    pub on_die_unexpected :
        (is_temporary name || (c.wanted =ₜ Status.to_string ObjPsStatusKind.stop)) ≡ false
        → (on_die b cargo key name w).0 ≡ ok tt
        → (l.see (on_die b cargo key name w).1).rows key ≡ some (report ObjPsStatusKind.fail c)
    unfolding on_die failed_unless_stopped
    on_die_unexpected t k = elim (Bool-cases (starts_with (codes "tmp-") name)) [
      | inl p ↦ ground arith
      | inr p ↦ elim (Bool-cases (starts_with (codes "init-") name)) [
        | inl q ↦ ground arith
        | inr q ↦ elim (Result-cases (b.read_status key w)) [
          | inr (e, r) ↦ cc (rw (p, q, r) at k)
          | inl (s, r) ↦
              let wanted =
                ap (λ c. c.wanted =ₜ Status.to_string ObjPsStatusKind.stop) (wanted_eq s r)
                ∙ rw (p, q) at t in
              elim (Result-cases (update_actual_status b key ObjPsStatusKind.fail w).0) [
                | inr (e, u) ↦ cc (rw (p, q, r, wanted, u) at k)
                | inl (_, u) ↦
                    rw (p, q, r, wanted, u)
                      (let v = update_actual_status_lem b l key ObjPsStatusKind.fail w u in
                        ap (λ rows. rows key)
                          (failed-see key name
                            (update_actual_status b key ObjPsStatusKind.fail w).1)
                        ∙ v.row
                        ∙ ap (λ c. some (report ObjPsStatusKind.fail c))
                            (some_injective (sym v.found ∙ h)))
              ]
        ]
      ]
    ]
