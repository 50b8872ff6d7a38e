-- ===== src/SystemState/Sent.antt =====
-- What an emission sends.
use nanocl.Prelude.{Text, Option, ◌≡◌, refl, ap, ap₂, ◌∙◌, codes, ◌⊎◌, inl, inr, Option-cases}
use nanocl.Io.{IoError, ok, err, Result-cases, with_context, ErrorKind}
use nanocl.System.Action.{NativeEventAction}
use nanocl.System.Event.{EventActor, EventPartial}
use nanocl.Backend.{Backend}
use nanocl.Backend.Laws.{Seen, IsLawful, add_sent}
use nanocl.SystemState.{
  emit_event, emit_action_sync, spawn_emit_event, emit_normal_native_action_sync,
  emit_error_native_action, normal_event, error_event,
}

-- the event was sent, or it was lost
abbrev pub Emits : EventPartial → Seen → Seen → Type 0
Emits p before after = (after ≡ add_sent p before) ⊎ (after ≡ before)

module _ {World : Type 0} (b : Backend World) (l : IsLawful b) where
  pub emit_event-see :
      (p : EventPartial) (w : World)
      → (((emit_event b p w).0 ≡ ok tt) × (l.see (emit_event b p w).1 ≡ add_sent p (l.see w)))
        ⊎ ((e : IoError) × ((emit_event b p w).0 ≡ err e) × (l.see (emit_event b p w).1 ≡ l.see w))
  unfolding emit_event
  emit_event-see p w = elim (Result-cases (b.store_event p w).0) [
    | inr (e, h) ↦ inr (e, rw h, rw h (l.store_see p w))
    | inl (ev, h) ↦
        let w' = (b.store_event p w).1 in
        elim (Option-cases (b.send ev w').0) [
          | inl k ↦ inl (
            rw (h, k),
            rw h (l.send_ok ev w' k ∙ ap₂ add_sent (l.store_ok p w ev h) (l.store_see p w)),
          )
          | inr (m, k) ↦ inr (
            with_context ErrorKind.interrupted (codes "Event Emitter") m,
            rw (h, k),
            rw h (l.send_err ev w' m k ∙ l.store_see p w),
          )
        ]
  ]

  pub emit_event-Emits :
      (p : EventPartial) (w : World) → Emits p (l.see w) (l.see (emit_event b p w).1)
  emit_event-Emits p w = elim (emit_event-see p w) [ inl h ↦ inl h.1 | inr h ↦ inr h.2 ]

  pub normal-Emits :
      (actor : EventActor) (action : NativeEventAction) (w : World)
      → Emits
          (normal_event b actor action)
          (l.see w)
          (l.see (emit_normal_native_action_sync b actor action w).1)
  unfolding emit_normal_native_action_sync
  normal-Emits actor action w = emit_event-Emits (normal_event b actor action) w

  pub error-Emits :
      (actor : EventActor) (action : NativeEventAction) (note : Option Text) (w : World)
      → Emits
          (error_event b actor action note)
          (l.see w)
          (l.see (emit_error_native_action b actor action note w).1)
  unfolding emit_error_native_action spawn_emit_event
  error-Emits actor action note w = emit_event-Emits (error_event b actor action note) w

  pub spawn-Emits :
      (p : EventPartial) (w : World) → Emits p (l.see w) (l.see (spawn_emit_event b p w).1)
  unfolding spawn_emit_event
  spawn-Emits p w = emit_event-Emits p w

pub Emits-rows :
    (p : EventPartial) (before after : Seen) → Emits p before after → after.rows ≡ before.rows
Emits-rows p before after (inl h) = ap (λ s. s.rows) h
Emits-rows p before after (inr h) = ap (λ s. s.rows) h

-- a failure to emit is only logged
pub normal_ok :
    {World : Type 0} (b : Backend World) (actor : EventActor) (action : NativeEventAction)
    (w : World)
    → (emit_normal_native_action_sync b actor action w).0 ≡ ok tt
unfolding emit_normal_native_action_sync emit_action_sync
normal_ok b actor action w = refl
