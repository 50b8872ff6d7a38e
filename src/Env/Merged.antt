-- ===== src/Env/Merged.antt =====
-- What a variable of the patch does to other names.
use nanocl.Prelude.{
  ℕ, suc, Text, codes, ◌=ₜ◌, starts_with, split, split-append, Lacks, join, is_empty, not, all,
  true, false, Bool-cases, ◌&&◌, Option, none, some, List, [], ◌∷◌, ◌++◌, if◌then◌else◌, ◌≡◌, ◌≢◌,
  refl, sym, ap, ap₂, ◌∙◌, inl, inr, arith, Option-cases, some_injective,
}
use nanocl.Env.{position, get_at, set_at, remove_at, merge_at, merge_var, merge_parts}

-- the first variable with the name
unfoldable pub find_var : Text → List Text → Option Text
find_var name [] = none
find_var name (x ∷ xs) =
    let rest = find_var name xs in if starts_with (name ++ codes "=") x then some x else rest

-- a variable has one name
names_agree :
    (m n x : Text)
    → Lacks b'=' m
    → Lacks b'=' n
    → starts_with (m ++ codes "=") x ≡ true
    → starts_with (n ++ codes "=") x ≡ true
    → m ≡ n
unfolding starts_with all
names_agree [] [] x h k s t = refl
names_agree [] (d ∷ n) [] h k s t = cc
names_agree [] (d ∷ n) (y ∷ x) h k s t = absurd (ground arith)
names_agree (c ∷ m) [] [] h k s t = cc
names_agree (c ∷ m) [] (y ∷ x) h k s t = absurd (ground arith)
names_agree (c ∷ m) (d ∷ n) [] h k s t = cc
names_agree (c ∷ m) (d ∷ n) (y ∷ x) h k s t =
    ap₂ (λ e es. e ∷ es) (ground arith)
      (names_agree m n x (ground arith) (ground arith) (ground arith) (ground arith))

pub starts_with-name : (m v : Text) → starts_with (m ++ codes "=") (m ++ b'=' ∷ v) ≡ true
unfolding starts_with
starts_with-name [] v = refl
starts_with-name (c ∷ m) v = ground (arith, starts_with-name m v)

module _ (m n : Text) (h : Lacks b'=' m) (k : Lacks b'=' n) (differ : m ≢ n) where
  no_match :
      (x : Text) → starts_with (m ++ codes "=") x ≡ true → starts_with (n ++ codes "=") x ≡ false
  no_match x s = elim (Bool-cases (starts_with (n ++ codes "=") x)) [
    | inl t ↦ absurd (differ (names_agree m n x h k s t))
    | inr f ↦ f
  ]

  find_var-set_at :
      (env : List Text) (v : Text) (p : ℕ)
      → position (m ++ codes "=") env ≡ some p
      → find_var n (set_at p (m ++ b'=' ∷ v) env) ≡ find_var n env
  unfolding position set_at find_var
  find_var-set_at [] v p e = cc
  find_var-set_at (x ∷ env) v p e = elim (Bool-cases (starts_with (m ++ codes "=") x)) [
    | inl s ↦
        let q : 0 ≡ p = some_injective (rw s at e) in
        ap (λ p. find_var n (set_at p (m ++ b'=' ∷ v) (x ∷ env))) (sym q)
        ∙ rw (no_match x s, no_match (m ++ b'=' ∷ v) (starts_with-name m v))
    | inr s ↦ elim (Option-cases (position (m ++ codes "=") env)) [
      | inl r ↦ cc (rw (s, r) at e)
      | inr (q, r) ↦
          let t : suc q ≡ p = some_injective (rw (s, r) at e) in
          ap (λ p. find_var n (set_at p (m ++ b'=' ∷ v) (x ∷ env))) (sym t)
          ∙ rw (find_var-set_at env v q r)
    ]
  ]

  find_var-remove_at :
      (env : List Text) (p : ℕ)
      → position (m ++ codes "=") env ≡ some p
      → find_var n (remove_at p env) ≡ find_var n env
  unfolding position remove_at find_var
  find_var-remove_at [] p e = cc
  find_var-remove_at (x ∷ env) p e = elim (Bool-cases (starts_with (m ++ codes "=") x)) [
    | inl s ↦
        let q : 0 ≡ p = some_injective (rw s at e) in
        ap (λ p. find_var n (remove_at p (x ∷ env))) (sym q) ∙ rw (no_match x s)
    | inr s ↦ elim (Option-cases (position (m ++ codes "=") env)) [
      | inl r ↦ cc (rw (s, r) at e)
      | inr (q, r) ↦
          let t : suc q ≡ p = some_injective (rw (s, r) at e) in
          ap (λ p. find_var n (remove_at p (x ∷ env))) (sym t) ∙ rw (find_var-remove_at env q r)
    ]
  ]

  find_var-push :
      (env : List Text) (v : Text) → find_var n (env ++ (m ++ b'=' ∷ v) ∷ []) ≡ find_var n env
  unfolding find_var
  find_var-push [] v = rw (no_match (m ++ b'=' ∷ v) (starts_with-name m v))
  find_var-push (x ∷ env) v = rw (find_var-push env v)

  find_var-merge_at :
      (env : List Text) (v value : Text) (o : Option ℕ)
      → position (m ++ codes "=") env ≡ o
      → find_var n (merge_at env (m ++ b'=' ∷ v) m value o) ≡ find_var n env
  unfolding merge_at
  find_var-merge_at env v value none e = find_var-push env v
  find_var-merge_at env v value (some p) e =
      elim (Bool-cases (not (get_at p env =ₜ value) && not (is_empty value))) [
        | inl s ↦ rw s (find_var-set_at env value p e)
        | inr s ↦ elim (Bool-cases (is_empty value)) [
          | inl t ↦ rw (s, t) (find_var-remove_at env p e)
          | inr t ↦ rw (s, t)
        ]
      ]

  find_var-merge_parts :
      (env parts : List Text) (v : Text)
      → find_var n (merge_parts env (m ++ b'=' ∷ v) (m ∷ parts)) ≡ find_var n env
  find_var-merge_parts env [] v = refl
  find_var-merge_parts env (p ∷ ps) v = find_var-merge_at env v (join (codes "=") (p ∷ ps)) _ refl

  -- Merging a variable, whether it is set, added or removed, leaves alone what is found for every
  -- other name.
  pub merge_var_other :
      (env : List Text) (v : Text) → find_var n (merge_var env (m ++ b'=' ∷ v)) ≡ find_var n env
  unfolding merge_var
  merge_var_other env v = rw (split-append b'=' m v h) (find_var-merge_parts env (split b'=' v) v)
