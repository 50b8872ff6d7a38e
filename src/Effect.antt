-- ===== src/Effect.antt =====
-- Computations of the daemon: they read and change the world, and may fail. What a failing
-- computation changed before stays changed.
use nanocl.Prelude.{List, [], ◌∷◌}
use nanocl.Io.{IoError, Result, ok, err}

abbrev pub Effect : Type 0 → Type 0 → Type 0
Effect World A = World → Result A × World

module _ {World A : Type 0} where
  abbrev pub pure : A → Effect World A
  pure a w = (ok a, w)

  abbrev pub raise : IoError → Effect World A
  raise e w = (err e, w)

  -- a call that only reads
  abbrev pub reading : (World → Result A) → Effect World A
  reading f w = (f w, w)

  -- `let _ = m.await;`
  abbrev pub ignoring : Effect World A → Effect World (Unit {0})
  ignoring m w = (ok tt, (m w).1)

module _ {World A B : Type 0} where
  abbrev pub continue : Result A → (A → Effect World B) → Effect World B
  continue (ok a) f w = f a w
  continue (err e) f w = (err e, w)

  infixl 5 ◌>>=◌ ◌>>◌
  abbrev pub ◌>>=◌ : Effect World A → (A → Effect World B) → Effect World B
  ◌>>=◌ m f w = continue (m w).0 f (m w).1

  abbrev pub ◌>>◌ : Effect World A → Effect World B → Effect World B
  ◌>>◌ m n w = continue (m w).0 (λ _. n) (m w).1

abbrev pub first_error : Result (Unit {0}) → Result (Unit {0}) → Result (Unit {0})
first_error (ok _) r = r
first_error (err e) r = err e

module _ {World A : Type 0} where
  -- a `for` loop whose body may return with an error
  unfoldable pub for_each : (A → Effect World (Unit {0})) → List A → Effect World (Unit {0})
  for_each f [] = pure tt
  for_each f (x ∷ xs) = f x >> for_each f xs

  -- All computations are run, in the order of the list, and then the first error is returned: a
  -- `FuturesUnordered` whose results are collected.
  unfoldable pub run_all : (A → Effect World (Unit {0})) → List A → Effect World (Unit {0})
  run_all f [] w = (ok tt, w)
  run_all f (x ∷ xs) w =
      let (r, w') = f x w in let (r', w'') = run_all f xs w' in (first_error r r', w'')

abbrev cons_result : {B : Type 0} → Result B → Result (List B) → Result (List B)
cons_result (ok b) (ok bs) = ok (b ∷ bs)
cons_result (ok b) (err e) = err e
cons_result (err e) r = err e

-- `FuturesOrdered`, or `FuturesUnordered`, collected into a result: all are run, in the order of the
-- list, and then the first error is returned.
unfoldable pub run_ordered :
    {World A B : Type 0} → (A → Effect World B) → List A → Effect World (List B)
run_ordered f [] w = (ok [], w)
run_ordered f (x ∷ xs) w =
    let (r, w') = f x w in let (rs, w'') = run_ordered f xs w' in (cons_result r rs, w'')
