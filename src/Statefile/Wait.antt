-- ===== src/Statefile/Wait.antt =====
-- Waiting for an event of an object: wait_process_state of bin/nanocl/src/utils/process.rs. The
-- subscription is made at once; the future that is spawned reads the stream.
use nanocl.Prelude.{
  refl, sym, ◌∙◌, ◌≡◌, ◌≢◌, ◌↔◌, All, =ₜ_refl, =ₜ_sound, decide-yes, decide-cases, Option-cases,
  false≢true, inl, inr, true, Bool-cases, ℕ, Text, codes, ◌=ₜ◌, Bool, false, ◌&&◌, Option, none,
  some, List, [], ◌∷◌, decide, unwrap_or, if◌then◌else◌,
}
use nanocl.Io.{IoError, ErrorKind, Result, ok, err, with_context}
use nanocl.System.Action.{NativeEventAction}
use nanocl.System.Event.{
  Event, EventActor, EventActorKind, EventCondition, EventKind, EventKind-discrete,
}
use nanocl.Effect.{Effect, pure, ◌>>=◌}
use nanocl.Statefile.Objects.{Foreign}
use nanocl.Statefile.{Client}

unfoldable pub waited_for : Text → EventActorKind → List NativeEventAction → EventCondition
waited_for key kind action = record {
  actor_key = some key;
  actor_kind = some kind;
  related_key = none;
  related_kind = none;
  kind = EventKind.normal ∷ EventKind.error ∷ [];
  action = action;
}

abbrev actor_is : Text → Option EventActor → Bool
actor_is key none = false
actor_is key (some actor) = unwrap_or actor.key [] =ₜ key

-- an event that ends the waiting with an error
unfoldable pub is_failure : Text → Event → Bool
is_failure key event =
    decide (EventKind-discrete event.kind EventKind.error) && actor_is key event.actor

interrupted : Option Text → IoError
interrupted note = with_context ErrorKind.interrupted (codes "Error") (unwrap_or note [])

-- what the spawned future returns, from the events of its stream
unfoldable pub wait_events : Text → List (Result Event) → Result (Unit {0})
unfolding interrupted
wait_events key [] = ok tt
wait_events key (err e ∷ events) = err e
wait_events key (ok event ∷ events) =
    let rest = wait_events key events in
    if is_failure key event then err (interrupted event.note) else rest

module _ {F : Foreign} {World : Type 0} (c : Client F World) where
  -- the spawned future
  abbrev pub wait_stream : Text → ℕ → Effect World (Unit {0})
  wait_stream key stream w = let (events, w') = c.events stream w in (wait_events key events, w')

  -- The result is the future; it is run where its handle is awaited.
  unfoldable pub wait_process_state :
      Text → EventActorKind → List NativeEventAction → Effect World (Effect World (Unit {0}))
  wait_process_state key kind action =
      c.watch_events (waited_for key kind action ∷ []) >>= λ stream. pure (wait_stream key stream)

-- The item is no error of the stream, and no error event whose actor has the key; an actor without
-- a key counts as one with the empty key.
abbrev pub GoesOn : Text → Result Event → Type 0
GoesOn key (err _) = ⊥
GoesOn key (ok event) =
    (actor : EventActor)
    → event.actor ≡ some actor
    → event.kind ≡ EventKind.error
    → unwrap_or actor.key [] ≢ key

no_failure_goes :
    (key : Text) (event : Event) → is_failure key event ≡ false → GoesOn key (ok event)
unfolding is_failure
no_failure_goes key event h actor e k same = false≢true (
    sym h ∙ rw (e, decide-yes (EventKind-discrete event.kind EventKind.error) k, same, =ₜ_refl key))

failure_stops :
    (key : Text) (event : Event) → is_failure key event ≡ true → GoesOn key (ok event) → ⊥
unfolding is_failure
failure_stops key event h g = elim (decide-cases (EventKind-discrete event.kind EventKind.error)) [
  | inr k ↦ cc (rw k at h)
  | inl (p, k) ↦ elim (Option-cases event.actor) [
    | inl a ↦ cc (rw (k, a) at h)
    | inr (actor, a) ↦ g actor a p (=ₜ_sound (unwrap_or actor.key []) key (rw (k, a) at h))
  ]
]

-- Waiting for an object succeeds exactly if every item of the stream, up to its end, is neither an
-- error of the stream nor an error event of the object.
pub wait_events-ok :
    (key : Text) (events : List (Result Event))
    → (wait_events key events ≡ ok tt) ↔ All (GoesOn key) events
unfolding wait_events
wait_events-ok key [] = (λ _. tt, λ _. refl)
wait_events-ok key (err e ∷ events) = (λ h. cc, λ h. absurd h.0)
wait_events-ok key (ok event ∷ events) = elim (Bool-cases (is_failure key event)) [
  | inl h ↦ rw h (λ k. cc, λ k. absurd (failure_stops key event h k.0))
  | inr h ↦
      let (f, g) = wait_events-ok key events in
      rw h (λ k. (no_failure_goes key event h, f k), λ k. g k.1)
]
