-- ===== src/Container/Create/Number.antt =====
-- How many containers are created for a cargo.
use nanocl.Prelude.{ℕ, zero, suc, List, [], ◌∷◌, length, ◌≡◌, refl, sym, ap, ◌∙◌, inl, inr}
use nanocl.Io.{Result, Result-cases, ok, err}
use nanocl.Process.{Process}
use nanocl.Workload.{Cargo}
use nanocl.Effect.{Effect, reading, run_ordered, ◌>>=◌, ◌>>◌}
use nanocl.Backend.{Backend}
use nanocl.Container.Create.{Builder, create, create_instance, range}

length_of : {A : Type 0} → Result (List A) → ℕ
length_of (ok xs) = length xs
length_of (err _) = 0

run_ordered-length :
    {World A B : Type 0} (f : A → Effect World B) (xs : List A) (w : World) (bs : List B)
    → (run_ordered f xs w).0 ≡ ok bs
    → length bs ≡ length xs
unfolding run_ordered length_of
run_ordered-length f [] w bs h = ap length_of (sym h)
run_ordered-length f (x ∷ xs) w bs h =
    let w' = (f x w).1 in
    elim (Result-cases (f x w).0) [
      | inr (e, k) ↦ cc (rw k at h)
      | inl (b, k) ↦ elim (Result-cases (run_ordered f xs w').0) [
        | inr (e, j) ↦ cc (rw (k, j) at h)
        | inl (rest, j) ↦
            ap length_of (sym (rw (k, j) at h)) ∙ ap suc (run_ordered-length f xs w' rest j)
      ]
    ]

length-range : (first n : ℕ) → length (range first n) ≡ n
length-range first zero = refl
length-range first (suc n) = ap suc (length-range (suc first) n)

-- a result has the property, if there is one
module _ {World B : Type 0} (P : B → Type 0) where
  record Returns (m : Effect World B) : Type 0 where
    run : (w : World) (a : B) → (m w).0 ≡ ok a → P a

  bind-Returns :
      {A : Type 0} (m : Effect World A) (f : A → Effect World B)
      → ((a : A) → Returns (f a))
      → Returns (m >>= f)
  bind-Returns m f hf = record {
    run = λ w b e. elim (Result-cases (m w).0) [
      | inl (a, h) ↦ (hf a).run (m w).1 b (rw h at e)
      | inr (x, h) ↦ cc (rw h at e)
    ];
  }

  then-Returns :
      {A : Type 0} (m : Effect World A) (n : Effect World B) → Returns n → Returns (m >> n)
  then-Returns m n h = record { run = λ w b e. (bind-Returns m (λ _. n) (λ _. h)).run w b e }

module _ {World : Type 0} (b : Backend World) (u : Builder World) where
  -- If containers for a cargo are created with success, they are as many as were asked for.
  pub create-length :
      (cargo : Cargo) (number : ℕ) (w : World) (ps : List Process)
      → (create b u cargo number w).0 ≡ ok ps
      → length ps ≡ number
  unfolding create
  create-length cargo number w ps h =
      let P : List Process → Type 0 = λ xs. length xs ≡ number in
      (bind-Returns P (reading (u.inject_data cargo)) _ λ cargo'. then-Returns P _ _ (
          bind-Returns P (reading (u.load_env_secrets cargo'.secrets)) _ λ env.
            bind-Returns P _ _ λ dir. record {
              run = λ v xs e.
                  run_ordered-length (create_instance b u cargo' env dir) (range 0 number) v xs e
                  ∙ length-range 0 number;
            })).run
        w ps h
