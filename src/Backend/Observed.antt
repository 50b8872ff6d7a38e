-- ===== src/Backend/Observed.antt =====
-- Computations that only observe: they change neither what is wanted of an object nor a container.
use nanocl.Prelude.{
  Text, ◌=ₜ◌, =ₜ_sound, Bool, true, false, Bool-cases, Option, none, some, List, [], ◌∷◌, ◌≡◌, refl,
  sym, ap, subst, ◌∙◌, inl, inr, if◌then◌else◌,
}
use nanocl.Io.{Result, Result-cases}
use nanocl.System.Status
use nanocl.System.Status.{ObjPsStatusKind}
use nanocl.System.Action.{NativeEventAction}
use nanocl.System.Event.{EventActor, EventPartial}
use nanocl.Effect.{Effect, pure, ◌>>=◌, ◌>>◌, ignoring, reading, for_each}
use nanocl.Backend.{Backend, Write}
use nanocl.Backend.Laws.{Seen, Columns, IsLawful}
use nanocl.Status.Table.{
  update_actual_status, update_actual_status_lem, update_actual_status-see_err, IsReported, report,
}
use nanocl.SystemState.{spawn_emit_event, emit_normal_native_action_sync, emit_error_native_action}
use nanocl.SystemState.Sent.{Emits, normal-Emits, error-Emits, spawn-Emits}

abbrev pub wanted_of : Option Columns → Option Text
wanted_of none = none
wanted_of (some c) = some c.wanted

-- What is wanted of each object is the same, and Docker was not called to change a container.
pub record Observed (before after : Seen) : Type 0 where
  pub wanted : (j : Text) → wanted_of (after.rows j) ≡ wanted_of (before.rows j)
  pub calls : after.calls ≡ before.calls

pub same-Observed : (before after : Seen) → after ≡ before → Observed before after
same-Observed before after h = record { wanted = λ j. rw h; calls = rw h }

Observed_trans : (a b c : Seen) → Observed a b → Observed b c → Observed a c
Observed_trans a b c f g = record {
  wanted = λ j. g.wanted j ∙ f.wanted j;
  calls = g.calls ∙ f.calls;
}

Emits-Observed :
    (p : EventPartial) (before after : Seen) → Emits p before after → Observed before after
Emits-Observed p before after (inl h) = record { wanted = λ j. rw h; calls = rw h }
Emits-Observed p before after (inr h) = same-Observed before after h

report_wanted : (s : ObjPsStatusKind) (c : Columns) → (report s c).wanted ≡ c.wanted
report_wanted s c = elim (Bool-cases (c.actual =ₜ Status.to_string s)) [
  | inl h ↦ rw h
  | inr h ↦ rw h
]

IsReported-Observed :
    (key : Text) (s : ObjPsStatusKind) (before after : Seen)
    → IsReported key s before after
    → Observed before after
IsReported-Observed key s before after h = record {
  wanted = λ j. elim (Bool-cases (key =ₜ j)) [
    | inl k ↦
        subst (λ i. wanted_of (after.rows i) ≡ wanted_of (before.rows i)) (=ₜ_sound key j k)
          (ap wanted_of h.row ∙ ap some (report_wanted s h.old) ∙ sym (ap wanted_of h.found))
    | inr k ↦ ap wanted_of (h.other j k)
  ];
  calls = h.calls;
}

module _ {World : Type 0} (b : Backend World) (l : IsLawful b) where
  pub record Observes {A : Type 0} (m : Effect World A) : Type 0 where
    pub run : (w : World) → Observed (l.see w) (l.see (m w).1)

  pub reading-Observes : {A : Type 0} (f : World → Result A) → Observes (reading f)
  reading-Observes f = record { run = λ w. same-Observed (l.see w) (l.see w) refl }

  pub write-Observes : (x : Write) → Observes (b.write x)
  write-Observes x = record { run = λ w. same-Observed (l.see w) _ (l.write_see x w) }

  pub bind-Observes :
      {A B : Type 0} (m : Effect World A) (f : A → Effect World B)
      → Observes m
      → ((a : A) → Observes (f a))
      → Observes (m >>= f)
  bind-Observes m f hm hf = record {
    run = λ w. elim (Result-cases (m w).0) [
      | inl (a, h) ↦ rw h (Observed_trans _ _ _ (hm.run w) ((hf a).run (m w).1))
      | inr (e, h) ↦ rw h (hm.run w)
    ];
  }

  pub then-Observes :
      {A B : Type 0} (m : Effect World A) (n : Effect World B)
      → Observes m
      → Observes n
      → Observes (m >> n)
  then-Observes m n hm hn = record { run = λ w. (bind-Observes m (λ _. n) hm (λ _. hn)).run w }

  pub for_each-Observes :
      {A : Type 0} (f : A → Effect World (Unit {0})) (xs : List A)
      → ((x : A) → Observes (f x))
      → Observes (for_each f xs)
  unfolding for_each
  for_each-Observes f [] h = record { run = λ w. same-Observed _ _ refl }
  for_each-Observes f (x ∷ xs) h =
      then-Observes (f x) (for_each f xs) (h x) (for_each-Observes f xs h)

  pub update_actual_status-Observes :
      (key : Text) (s : ObjPsStatusKind) → Observes (update_actual_status b key s)
  update_actual_status-Observes key s = record {
    run = λ w. elim (Result-cases (update_actual_status b key s w).0) [
      | inl (_, h) ↦ IsReported-Observed key s _ _ (update_actual_status_lem b l key s w h)
      | inr (e, h) ↦ same-Observed _ _ (update_actual_status-see_err b l key s w e h)
    ];
  }

  pub normal-Observes :
      (actor : EventActor) (action : NativeEventAction)
      → Observes (emit_normal_native_action_sync b actor action)
  normal-Observes actor action = record {
    run = λ w. Emits-Observed _ _ _ (normal-Emits b l actor action w);
  }

  pub error-Observes :
      (actor : EventActor) (action : NativeEventAction) (note : Option Text)
      → Observes (emit_error_native_action b actor action note)
  error-Observes actor action note = record {
    run = λ w. Emits-Observed _ _ _ (error-Emits b l actor action note w);
  }

  pub spawn-Observes : (p : EventPartial) → Observes (spawn_emit_event b p)
  spawn-Observes p = record { run = λ w. Emits-Observed _ _ _ (spawn-Emits b l p w) }

  pub pure-Observes : {A : Type 0} (a : A) → Observes (pure a)
  pure-Observes a = record { run = λ w. same-Observed _ _ refl }

  pub if-Observes :
      {A : Type 0} (c : Bool) (m n : Effect World A)
      → Observes m
      → Observes n
      → Observes (if c then m else n)
  if-Observes true m n hm hn = hm
  if-Observes false m n hm hn = hn

  pub ignoring-Observes : {A : Type 0} (m : Effect World A) → Observes m → Observes (ignoring m)
  ignoring-Observes m h = record { run = λ w. h.run w }
