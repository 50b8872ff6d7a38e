-- ===== src/Container/Generic/Requests.antt =====
-- What a request leaves in the status table and sends to the event loop.
use nanocl.Prelude.{
  Text, ◌=ₜ◌, =ₜ_refl, true, false, Bool-cases, some, [], ◌∷◌, ◌++◌, ◌≡◌, refl, ap, ◌∙◌, ◌⊎◌, inl,
  inr,
}
use nanocl.Io.{IoError, ok, err, Result-cases}
use nanocl.System.Status
use nanocl.System.Status.{ObjPsStatusKind}
use nanocl.System.Action.{NativeEventAction}
use nanocl.System.Event.{EventActor}
use nanocl.Process.{ProcessKind, vm, job, cargo}
use nanocl.Workload.{cargo_actor, vm_actor, job_actor}
use nanocl.Backend.{Backend, touch_job}
use nanocl.Backend.Laws.{Seen, Columns, IsLawful, add_sent, columns}
use nanocl.Status.{ObjPsStatusDb, ObjPsStatusUpdate}
use nanocl.SystemState.{normal_event, emit_normal_native_action_sync}
use nanocl.SystemState.Sent.{normal-Emits}
use nanocl.Container.Generic.{emit, emit_starting, emit_stopping, wanted_by_start}

-- At most one event was sent, a normal one with this action; nothing else changed.
abbrev pub SendsAction : {World : Type 0} → Backend World → NativeEventAction → Seen → Seen → Type 0
SendsAction b action before after =
    (after ≡ before)
    ⊎ ((actor : EventActor) × (after ≡ add_sent (normal_event b actor action) before))

-- The columns after a request: the old ones become the previous ones.
abbrev pub request : ObjPsStatusKind → ObjPsStatusKind → Columns → Columns
request wanted actual c = record {
  wanted = Status.to_string wanted;
  prev_wanted = c.wanted;
  actual = Status.to_string actual;
  prev_actual = c.actual;
}

module _ {World : Type 0} (b : Backend World) (l : IsLawful b) where
  pub normal-SendsAction :
      (actor : EventActor) (action : NativeEventAction) (w : World) (before : Seen)
      → l.see w ≡ before
      → SendsAction b action before (l.see (emit_normal_native_action_sync b actor action w).1)
  normal-SendsAction actor action w before h = elim (normal-Emits b l actor action w) [
    | inl e ↦ inr (actor, e ∙ ap (add_sent (normal_event b actor action)) h)
    | inr e ↦ inl (e ∙ h)
  ]

  pub emit-SendsAction :
      (key : Text) (kind : ProcessKind) (action : NativeEventAction) (w : World)
      → SendsAction b action (l.see w) (l.see (emit b key kind action w).1)
  unfolding emit
  emit-SendsAction key vm action w = elim (Result-cases (b.read_vm key w)) [
    | inr (e, h) ↦ inl (rw h)
    | inl (v, h) ↦ rw h (normal-SendsAction (vm_actor v) action w (l.see w) refl)
  ]
  emit-SendsAction key cargo action w = elim (Result-cases (b.read_cargo key w)) [
    | inr (e, h) ↦ inl (rw h)
    | inl (v, h) ↦ rw h (normal-SendsAction (cargo_actor v) action w (l.see w) refl)
  ]
  emit-SendsAction key job action w =
      let x = touch_job key (b.now w) in
      let w' = (b.write x w).1 in
      elim (Result-cases (b.write x w).0) [
        | inr (e, h) ↦ inl (rw h (l.write_see x w))
        | inl (_, h) ↦ elim (Result-cases (b.read_job key w')) [
          | inr (e, k) ↦ inl (rw (h, k) (l.write_see x w))
          | inl (v, k) ↦
              rw (h, k) (normal-SendsAction (job_actor v) action w' (l.see w) (l.write_see x w))
        ]
      ]

-- `after` is `before` with the request's columns in the row of the key, and at most one event more.
pub record IsRequested {World : Type 0} (b : Backend World) (key : Text)
    (wanted actual : ObjPsStatusKind) (action : NativeEventAction) (before after : Seen)
    : Type 0 where
  pub old : Columns
  pub found : before.rows key ≡ some old
  pub row : after.rows key ≡ some (request wanted actual old)
  pub other : (j : Text) → (key =ₜ j) ≡ false → after.rows j ≡ before.rows j
  pub sent :
      (after.sent ≡ before.sent)
      ⊎ ((actor : EventActor) × (after.sent ≡ before.sent ++ normal_event b actor action ∷ []))
  pub calls : after.calls ≡ before.calls

module _ {World : Type 0} (b : Backend World) (l : IsLawful b) (key : Text)
    (wanted actual : ObjPsStatusKind) (action : NativeEventAction) (w : World)
    (r : ObjPsStatusDb) where
  abbrev pub requested : ObjPsStatusUpdate
  requested = record {
    wanted = some (Status.to_string wanted);
    prev_wanted = some r.wanted;
    actual = some (Status.to_string actual);
    prev_actual = some r.actual;
  }

  sent_of :
      (before after : Seen)
      → SendsAction b action before after
      → (after.sent ≡ before.sent)
        ⊎ ((actor : EventActor) × (after.sent ≡ before.sent ++ normal_event b actor action ∷ []))
  sent_of before after (inl e) = inl (ap (λ s. s.sent) e)
  sent_of before after (inr (actor, e)) = inr (actor, ap (λ s. s.sent) e)

  rest_of :
      (before after : Seen)
      → SendsAction b action before after
      → (after.rows ≡ before.rows) × (after.calls ≡ before.calls)
  rest_of before after (inl e) = (ap (λ s. s.rows) e, ap (λ s. s.calls) e)
  rest_of before after (inr (actor, e)) = (ap (λ s. s.rows) e, ap (λ s. s.calls) e)

  pub request-IsRequested :
      (after : Seen)
      → b.read_status key w ≡ ok r
      → (b.update_status key requested w).0 ≡ ok tt
      → SendsAction b action (l.see (b.update_status key requested w).1) after
      → IsRequested b key wanted actual action (l.see w) after
  request-IsRequested after h k s =
      let middle = l.update_ok key requested w k in
      let rest = rest_of (l.see (b.update_status key requested w).1) after s in
      record {
        old = columns r;
        found = l.read_ok key w r h;
        row = rw (rest.0, middle, =ₜ_refl key, l.read_ok key w r h);
        other = λ j n. rw (rest.0, middle, n);
        sent = rw middle at (sent_of (l.see (b.update_status key requested w).1) after s);
        calls = rest.1 ∙ ap (λ s. s.calls) middle;
      }

module _ {World : Type 0} (b : Backend World) (l : IsLawful b) (key : Text) (kind : ProcessKind)
    (w : World) where
  -- A start request sets what is wanted (that a job finishes, that others are started) and the
  -- actual status `starting`, keeps the old ones as the previous ones, leaves the other rows alone,
  -- calls no container and sends at most one event, `starting`; or it fails and changes nothing.
  pub emit_starting_lem :
      IsRequested b key
        (wanted_by_start kind)
        ObjPsStatusKind.starting
        NativeEventAction.starting
        (l.see w)
        (l.see (emit_starting b key kind w).1)
      ⊎ ((e : IoError) × ((emit_starting b key kind w).0 ≡ err e)
          × (l.see (emit_starting b key kind w).1 ≡ l.see w))
  unfolding emit_starting
  emit_starting_lem = elim (Result-cases (b.read_status key w)) [
    | inr (e, h) ↦ inr (e, rw h, rw h)
    | inl (r, h) ↦
        let u =
          requested b l key (wanted_by_start kind) ObjPsStatusKind.starting
            NativeEventAction.starting w r in
        elim (Result-cases (b.update_status key u w).0) [
          | inr (e, k) ↦ inr (e, rw (h, k), rw (h, k) (l.update_err key u w e k))
          | inl (_, k) ↦ inl (
              rw (h, k)
                (request-IsRequested b l key (wanted_by_start kind) ObjPsStatusKind.starting
                  NativeEventAction.starting w r _ h k
                  (emit-SendsAction b l key kind NativeEventAction.starting
                    (b.update_status key u w).1)))
        ]
  ]

  -- The stop request of an object that is not stopped does the same with the status that is wanted,
  -- `stop`, the actual status and the event `stopping`. It changes nothing if the object's actual
  -- status is `stop`, or if it fails.
  pub emit_stopping_lem :
      IsRequested b key ObjPsStatusKind.stop ObjPsStatusKind.stopping NativeEventAction.stopping
        (l.see w)
        (l.see (emit_stopping b key kind w).1)
      ⊎ ((l.see (emit_stopping b key kind w).1 ≡ l.see w)
          × (((e : IoError) × ((emit_stopping b key kind w).0 ≡ err e))
              ⊎ ((c : Columns) × ((l.see w).rows key ≡ some c)
                  × ((c.actual =ₜ Status.to_string ObjPsStatusKind.stop) ≡ true))))
  unfolding emit_stopping
  emit_stopping_lem = elim (Result-cases (b.read_status key w)) [
    | inr (e, h) ↦ inr (rw h, inl (e, rw h))
    | inl (r, h) ↦ elim (Bool-cases (r.actual =ₜ Status.to_string ObjPsStatusKind.stop)) [
      | inl t ↦ inr (rw (h, t), inr (columns r, l.read_ok key w r h, t))
      | inr t ↦
          let u =
            requested b l key ObjPsStatusKind.stop ObjPsStatusKind.stopping
              NativeEventAction.stopping w r in
          elim (Result-cases (b.update_status key u w).0) [
            | inr (e, k) ↦ inr (rw (h, t, k) (l.update_err key u w e k), inl (e, rw (h, t, k)))
            | inl (_, k) ↦ inl (
                rw (h, t, k)
                  (request-IsRequested b l key ObjPsStatusKind.stop ObjPsStatusKind.stopping
                    NativeEventAction.stopping w r _ h k
                    (emit-SendsAction b l key kind NativeEventAction.stopping
                      (b.update_status key u w).1)))
          ]
    ]
  ]
