-- ===== src/Statefile/Order.antt =====
-- The order in which a Statefile and its sub states are applied, and that parsing them ends.
use nanocl.Prelude.{
  ℕ, zero, suc, ◌≤◌, arith, some, List, [], ◌∷◌, ◌++◌, append_assoc, append-nil, All, ◌≡◌, refl,
  sym, subst, unwrap_or, ap, ◌∙◌, inl, inr,
}
use nanocl.Io.{Result, Result-cases, ok, err}
use nanocl.Effect.{run_ordered, Effect, continue}
use nanocl.Statefile.Objects.{Foreign}
use nanocl.Statefile.{StateRef, SubState}
use nanocl.Statefile.Names.{All-imp}
use nanocl.Statefile.Parse.{
  Loader, concat, reverse, compiled_values, load_sub_state, sub_states_of, parse_with,
  parse_state_file_recurr,
}

pub reverse-append : {A : Type 0} (xs ys : List A) → reverse (xs ++ ys) ≡ reverse ys ++ reverse xs
reverse-append [] ys = sym (append-nil (reverse ys))
reverse-append (x ∷ xs) ys =
    ap (λ l. l ++ x ∷ []) (reverse-append xs ys) ∙ append_assoc (reverse ys) (reverse xs) (x ∷ [])

abbrev value_or : {A : Type 0} → A → Result A → A
value_or a (ok b) = b
value_or a (err _) = a

module _ {F : Foreign} {World : Type 0} (loader : Loader F World) where
  abbrev pub parse : ℕ → StateRef F → F.Value → Effect World (List (StateRef F))
  parse = parse_state_file_recurr loader

  abbrev pub parse_sub : ℕ → StateRef F → SubState F → Effect World (List (StateRef F))
  parse_sub fuel st sub w =
      continue (load_sub_state loader st sub w)
        (λ sub_file. parse fuel sub_file (F.object (compiled_values {F = F} sub))) w

  -- If a Statefile is parsed, it is the last one to be applied, after all that it includes.
  pub parse-last :
      (fuel : ℕ) (st : StateRef F) (args : F.Value) (w : World) (states : List (StateRef F))
      → (parse fuel st args w).0 ≡ ok states
      → (rendered : StateRef F) × (included : List (StateRef F)) × ((loader.render st args w).0
          ≡ ok rendered)
        × (states ≡ included ++ rendered ∷ [])
  unfolding parse_state_file_recurr parse_with
  parse-last zero st args w states e = cc
  parse-last (suc fuel) st args w states e = elim (Result-cases (loader.render st args w).0) [
    | inr (x, h) ↦ cc (rw h at e)
    | inl (rendered, h) ↦
        let w' = (loader.render st args w).1 in
        elim (Result-cases
          (run_ordered (parse_sub fuel rendered) (sub_states_of loader rendered) w').0) [
            | inr (x, k) ↦ cc (rw (h, k) at e)
            | inl (parsed, k) ↦
                (rendered, reverse (concat parsed), h, sym (ap (value_or []) (rw (h, k) at e)))
          ]
  ]

  -- what a sub state is read to has the property, whenever it is read
  abbrev pub LoadsTo : StateRef F → (StateRef F → F.Value → Type 0) → SubState F → Type 0
  LoadsTo rendered P sub =
      (w : World) (sub_file : StateRef F)
      → load_sub_state loader rendered sub w ≡ ok sub_file
      → P sub_file (F.object (compiled_values {F = F} sub))

  -- A Statefile that includes at most so many levels of others, whatever the world is.
  abbrev pub Ends : ℕ → StateRef F → F.Value → Type 0
  Ends zero st args = ⊥
  Ends (suc n) st args =
      (w : World) (rendered : StateRef F)
      → (loader.render st args w).0 ≡ ok rendered
      → All (LoadsTo rendered (Ends n)) (sub_states_of loader rendered)

  run_ordered_eq :
      {A B : Type 0} (f g : A → Effect World B) (xs : List A) (w : World)
      → All (λ x. (v : World) → f x v ≡ g x v) xs
      → run_ordered f xs w ≡ run_ordered g xs w
  unfolding run_ordered
  run_ordered_eq f g [] w h = refl
  run_ordered_eq f g (x ∷ xs) w (p, h) = rw (p w, run_ordered_eq f g xs (g x w).1 h) refl

  -- A Statefile whose includes are less than n levels deep is parsed with fuel n as with any more:
  -- the parsing ends by itself.
  pub parse-enough :
      (n m : ℕ) (st : StateRef F) (args : F.Value) (w : World)
      → n ≤ m
      → Ends n st args
      → parse m st args w ≡ parse n st args w
  unfolding parse_state_file_recurr parse_with
  parse-enough zero m st args w le h = absurd h
  parse-enough (suc n) zero st args w le h = absurd (omega arith)
  parse-enough (suc n) (suc m) st args w le h = elim (Result-cases (loader.render st args w).0) [
    | inr (x, k) ↦ rw k refl
    | inl (rendered, k) ↦
        rw
          (
            k,
            run_ordered_eq (parse_sub m rendered) (parse_sub n rendered)
                (sub_states_of loader rendered) (loader.render st args w).1
                (All-imp (LoadsTo rendered (Ends n)) _ (sub_states_of loader rendered)
                  (λ sub p v. elim (Result-cases (load_sub_state loader rendered sub v)) [
                    | inl (sub_file, j) ↦
                        rw j (parse-enough n m sub_file _ v (omega arith) (p v sub_file j))
                    | inr (x, j) ↦ rw j refl
                  ])
                  (h w rendered k)),
          )
          refl
  ]

  run_ordered-single :
      {A B : Type 0} (f : A → Effect World B) (x : A) (xs : List A) (w : World) (b : B)
      → xs ≡ x ∷ []
      → (f x w).0 ≡ ok b
      → (run_ordered f xs w).0 ≡ ok (b ∷ [])
  unfolding run_ordered
  run_ordered-single f x xs w b one h =
      subst (λ l. (run_ordered f l w).0 ≡ ok (b ∷ [])) (sym one) (rw h refl)

  -- If a Statefile has one sub state, and this one is parsed into what it includes and itself, then
  -- the sub state is applied first, what it includes after it and in reverse, and the Statefile last.
  pub parse-single :
      (fuel : ℕ) (st rendered sub_file : StateRef F) (args : F.Value) (w : World) (sub : SubState F)
      (included : List (StateRef F))
      → (loader.render st args w).0 ≡ ok rendered
      → rendered.content.sub_states ≡ some (sub ∷ [])
      → (parse_sub fuel rendered sub (loader.render st args w).1).0 ≡ ok (included ++ sub_file ∷ [])
      → (parse (suc fuel) st args w).0 ≡ ok (sub_file ∷ reverse included ++ rendered ∷ [])
  unfolding parse_state_file_recurr parse_with
  parse-single fuel st rendered sub_file args w sub included render subs parsed =
      rw
        (
          render,
          run_ordered-single (parse_sub fuel rendered) sub (sub_states_of loader rendered)
              (loader.render st args w).1 (included ++ sub_file ∷ [])
              (ap (λ o. unwrap_or o []) subs) parsed,
        )
        (ap ok (
          ap (λ l. reverse l ++ rendered ∷ []) (append-nil (included ++ sub_file ∷ []))
          ∙ ap (λ l. l ++ rendered ∷ []) (reverse-append included (sub_file ∷ []))))
