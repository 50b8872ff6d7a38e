-- ===== src/Statefile/Logged.antt =====
-- Which requests a run sends: the daemon's client, with the list of what was sent on it.
use nanocl.Prelude.{
  List, [], ◌∷◌, ◌++◌, append_assoc, append-nil, All, ◌≡◌, refl, sym, ap, ◌∙◌, inl, inr,
}
use nanocl.Io.{Result, Result-cases}
use nanocl.System.Event.{EventCondition}
use nanocl.Effect.{Effect, pure, reading, ignoring, ◌>>=◌, ◌>>◌, for_each}
use nanocl.Statefile.Objects.{Foreign}
use nanocl.Statefile.{Client, Request}

-- each request is written down, whether it succeeds or not, and nothing else is
pub record IsLogged {F : Foreign} {World : Type 0} (c : Client F World) : Type 0 where
  pub sent : World → List (Request F)
  pub send_sent : (r : Request F) (w : World) → sent (c.send r w).1 ≡ sent w ++ r ∷ []
  pub watch_sent : (x : List EventCondition) (w : World) → sent (c.watch_events x w).1 ≡ sent w
  pub events_sent : (x : _) (w : World) → sent (c.events x w).1 ≡ sent w

All-append : {A : Type 0} (P : A → Type 0) (xs ys : List A) → All P xs → All P ys → All P (xs ++ ys)
All-append P [] ys p q = q
All-append P (x ∷ xs) ys (px, p) q = (px, All-append P xs ys p q)

module _ {R : Type 0} (P : R → Type 0) where
  -- the list grew by elements with the property
  pub record Grown (before after : List R) : Type 0 where
    pub added : List R
    pub grown : after ≡ before ++ added
    pub all : All P added

  pub same-Grown : (before after : List R) → after ≡ before → Grown before after
  same-Grown before after h = record { added = []; grown = h ∙ sym (append-nil before); all = tt }

  pub Grown_trans : (a b d : List R) → Grown a b → Grown b d → Grown a d
  Grown_trans a b d f g = record {
    added = f.added ++ g.added;
    grown = g.grown ∙ ap (λ l. l ++ g.added) f.grown ∙ append_assoc a f.added g.added;
    all = All-append P f.added g.added f.all g.all;
  }

module _ {F : Foreign} {World : Type 0} (c : Client F World) (l : IsLogged c)
    (P : Request F → Type 0) where
  pub record SendsOnly {A : Type 0} (m : Effect World A) : Type 0 where
    pub run : (w : World) → Grown P (l.sent w) (l.sent (m w).1)

  pub pure-SendsOnly : {A : Type 0} (a : A) → SendsOnly (pure a)
  pure-SendsOnly a = record { run = λ w. same-Grown P _ _ refl }

  pub reading-SendsOnly : {A : Type 0} (f : World → Result A) → SendsOnly (reading f)
  reading-SendsOnly f = record { run = λ w. same-Grown P _ _ refl }

  pub send-Grown : (r : Request F) (w : World) → P r → Grown P (l.sent w) (l.sent (c.send r w).1)
  send-Grown r w p = record { added = r ∷ []; grown = l.send_sent r w; all = (p, tt) }

  pub bind-SendsOnly :
      {A B : Type 0} (m : Effect World A) (f : A → Effect World B)
      → SendsOnly m
      → ((a : A) → SendsOnly (f a))
      → SendsOnly (m >>= f)
  bind-SendsOnly m f hm hf = record {
    run = λ w. elim (Result-cases (m w).0) [
      | inl (a, h) ↦ rw h (Grown_trans P _ _ _ (hm.run w) ((hf a).run (m w).1))
      | inr (e, h) ↦ rw h (hm.run w)
    ];
  }

  pub then-SendsOnly :
      {A B : Type 0} (m : Effect World A) (n : Effect World B)
      → SendsOnly m
      → SendsOnly n
      → SendsOnly (m >> n)
  then-SendsOnly m n hm hn = record { run = λ w. (bind-SendsOnly m (λ _. n) hm (λ _. hn)).run w }

  pub ignoring-SendsOnly : {A : Type 0} (m : Effect World A) → SendsOnly m → SendsOnly (ignoring m)
  ignoring-SendsOnly m h = record { run = λ w. h.run w }

  pub for_each-SendsOnly :
      {A : Type 0} (f : A → Effect World (Unit {0})) (xs : List A)
      → All (λ x. SendsOnly (f x)) xs
      → SendsOnly (for_each f xs)
  unfolding for_each
  for_each-SendsOnly f [] h = pure-SendsOnly tt
  for_each-SendsOnly f (x ∷ xs) (p, h) = record {
    run = λ w. (then-SendsOnly (f x) (for_each f xs) p (for_each-SendsOnly f xs h)).run w;
  }
