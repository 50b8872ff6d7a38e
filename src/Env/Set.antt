-- ===== src/Env/Set.antt =====
-- What a variable of the patch sets.
use nanocl.Prelude.{
  ℕ, suc, Text, codes, ◌=ₜ◌, =ₜ_sound, starts_with, split-append, join, join-split, split_cons,
  Lacks, is_empty, true, false, Bool-cases, none, some, List, [], ◌∷◌, ◌++◌, ◌≡◌, sym, ap, ◌∙◌, inl,
  inr, Option-cases, some_injective,
}
use nanocl.Env.{position, get_at, set_at, merge_at, merge_var}
use nanocl.Env.Merged.{find_var, starts_with-name}

module _ (m : Text) where
  find_var_added :
      (env : List Text) (y : Text)
      → starts_with (m ++ codes "=") y ≡ true
      → position (m ++ codes "=") env ≡ none
      → find_var m (env ++ y ∷ []) ≡ some y
  unfolding position find_var
  find_var_added [] y s e = rw s
  find_var_added (x ∷ env) y s e = elim (Bool-cases (starts_with (m ++ codes "=") x)) [
    | inl t ↦ cc (rw t at e)
    | inr t ↦ elim (Option-cases (position (m ++ codes "=") env)) [
      | inl r ↦ rw (t, find_var_added env y s r)
      | inr (q, r) ↦ cc (rw (t, r) at e)
    ]
  ]

  -- the first variable with the name is at its position, and what is set there is found
  position_found :
      (env : List Text) (p : ℕ)
      → position (m ++ codes "=") env ≡ some p
      → (find_var m env ≡ some (get_at p env))
        × ((y : Text)
            → starts_with (m ++ codes "=") y ≡ true
            → find_var m (set_at p y env) ≡ some y)
  unfolding position find_var get_at set_at
  position_found [] p e = cc
  position_found (x ∷ env) p e = elim (Bool-cases (starts_with (m ++ codes "=") x)) [
    | inl s ↦
        let q : 0 ≡ p = some_injective (rw s at e) in
        (
          rw s (ap (λ p. some (get_at p (x ∷ env))) q),
          λ y t. ap (λ p. find_var m (set_at p y (x ∷ env))) (sym q) ∙ rw t,
        )
    | inr s ↦ elim (Option-cases (position (m ++ codes "=") env)) [
      | inl r ↦ cc (rw (s, r) at e)
      | inr (q, r) ↦
          let t : suc q ≡ p = some_injective (rw (s, r) at e) in
          let ih = position_found env q r in
          (
            rw s (ih.0 ∙ ap (λ p. some (get_at p (x ∷ env))) t),
            λ y u. ap (λ p. find_var m (set_at p y (x ∷ env))) (sym t) ∙ rw s (ih.1 y u),
          )
    ]
  ]

  merge_at_set :
      (env : List Text) (v : Text)
      → is_empty v ≡ false
      → ((find_var m env ≡ some v) → ⊥)
      → find_var m (merge_at env (m ++ b'=' ∷ v) m v (position (m ++ codes "=") env))
        ≡ some (m ++ b'=' ∷ v)
  unfolding merge_at
  merge_at_set env v n k = elim (Option-cases (position (m ++ codes "=") env)) [
    | inl e ↦ rw e (find_var_added env (m ++ b'=' ∷ v) (starts_with-name m v) e)
    | inr (p, e) ↦
        let found = position_found env p e in
        elim (Bool-cases (get_at p env =ₜ v)) [
          | inl t ↦ absurd (k (found.0 ∙ ap some (=ₜ_sound (get_at p env) v t)))
          | inr t ↦ rw (e, t, n) (found.1 (m ++ b'=' ∷ v) (starts_with-name m v))
        ]
  ]

  -- A variable with a value is found after it was merged, whatever the name had before, unless the
  -- value is the whole text of the variable that was found before.
  pub merge_var_set :
      (env : List Text) (v : Text)
      → Lacks b'=' m
      → is_empty v ≡ false
      → ((find_var m env ≡ some v) → ⊥)
      → find_var m (merge_var env (m ++ b'=' ∷ v)) ≡ some (m ++ b'=' ∷ v)
  unfolding merge_var
  merge_var_set env v h n k =
      let (p, ps, e) = split_cons b'=' v in
      let value = ap (join (codes "=")) (sym e) ∙ join-split b'=' v in
      rw (split-append b'=' m v h, e, value) (merge_at_set env v n k)
