-- ===== src/Statefile/Nested.antt =====
-- The order in which a Statefile is applied that includes one that includes others.
use nanocl.Prelude.{ℕ, suc, some, List, [], ◌∷◌, ◌++◌, map, ◌≡◌, refl, ap, ◌∙◌}
use nanocl.Io.{ok}
use nanocl.Effect.{run_ordered}
use nanocl.Statefile.Objects.{Foreign}
use nanocl.Statefile.{StateRef, SubState}
use nanocl.Statefile.Parse.{
  Loader, concat, reverse, compiled_values, load_sub_state, sub_states_of, parse_with,
  parse_state_file_recurr,
}
use nanocl.Statefile.Order.{parse, parse_sub, parse-single, reverse-append}

reverse-reverse : {A : Type 0} (xs : List A) → reverse (reverse xs) ≡ xs
reverse-reverse [] = refl
reverse-reverse (x ∷ xs) =
    reverse-append (reverse xs) (x ∷ []) ∙ ap (λ l. x ∷ l) (reverse-reverse xs)

concat-single : {A : Type 0} (xs : List A) → concat (map (λ x. x ∷ []) xs) ≡ xs
concat-single [] = refl
concat-single (x ∷ xs) = ap (λ l. x ∷ l) (concat-single xs)

module _ {F : Foreign} {World : Type 0} (loader : Loader F World) where
  -- what the sub state of a Statefile is read to, and rendered to with its arguments
  pub record ReadsTo (st : StateRef F) (sub : SubState F) (rendered : StateRef F) : Type 0 where
    pub file : StateRef F
    pub load : (w : World) → load_sub_state loader st sub w ≡ ok file
    pub render :
        (w : World)
        → (loader.render file (F.object (compiled_values {F = F} sub)) w).0 ≡ ok rendered

  -- the sub states of a list are read to Statefiles that include none
  pub data Leaves (st : StateRef F) : List (SubState F) → List (StateRef F) → Type 0 where
    no_leaf : Leaves st [] []
    leaf :
        (sub : SubState F) (subs : List (SubState F)) (x : StateRef F) (xs : List (StateRef F))
        → ReadsTo st sub x
        → sub_states_of loader x ≡ []
        → Leaves st subs xs
        → Leaves st (sub ∷ subs) (x ∷ xs)

  parse_sub-leaf :
      (fuel : ℕ) (st : StateRef F) (sub : SubState F) (x : StateRef F) (w : World)
      → ReadsTo st sub x
      → sub_states_of loader x ≡ []
      → (parse_sub loader (suc fuel) st sub w).0 ≡ ok (x ∷ [])
  unfolding parse_state_file_recurr parse_with run_ordered
  parse_sub-leaf fuel st sub x w r alone = rw (r.load w, r.render w, alone)

  run_ordered-Leaves :
      (fuel : ℕ) (st : StateRef F) (subs : List (SubState F)) (xs : List (StateRef F)) (w : World)
      → Leaves st subs xs
      → (run_ordered (parse_sub loader (suc fuel) st) subs w).0 ≡ ok (map (λ x. x ∷ []) xs)
  unfolding run_ordered
  run_ordered-Leaves fuel st ss ys w no_leaf = refl
  run_ordered-Leaves fuel st ss ys w (leaf sub subs x xs r alone rest) =
      let w' = (parse_sub loader (suc fuel) st sub w).1 in
      rw (parse_sub-leaf fuel st sub x w r alone, run_ordered-Leaves fuel st subs xs w' rest)

  parse_sub-middle :
      (fuel : ℕ) (st middle : StateRef F) (sub : SubState F) (xs : List (StateRef F)) (w : World)
      → ReadsTo st sub middle
      → Leaves middle (sub_states_of loader middle) xs
      → (parse_sub loader (suc (suc fuel)) st sub w).0 ≡ ok (reverse xs ++ middle ∷ [])
  unfolding parse_state_file_recurr parse_with
  parse_sub-middle fuel st middle sub xs w r leaves =
      let w' = (loader.render r.file (F.object (compiled_values {F = F} sub)) w).1 in
      rw (
        r.load w,
        r.render w,
        run_ordered-Leaves fuel middle (sub_states_of loader middle) xs w' leaves,
        concat-single xs,
      )

  -- If a Statefile includes just one, and this one includes any number that include none, then the
  -- one is applied before those that it includes, which follow in their order, and the Statefile is
  -- applied last.
  pub parse-nested :
      (fuel : ℕ) (st rendered middle : StateRef F) (args : F.Value) (sub : SubState F)
      (xs : List (StateRef F)) (w : World)
      → (loader.render st args w).0 ≡ ok rendered
      → rendered.content.sub_states ≡ some (sub ∷ [])
      → ReadsTo rendered sub middle
      → Leaves middle (sub_states_of loader middle) xs
      → (parse loader (suc (suc (suc fuel))) st args w).0 ≡ ok (middle ∷ xs ++ rendered ∷ [])
  parse-nested fuel st rendered middle args sub xs w render one r leaves =
      parse-single loader (suc (suc fuel)) st rendered middle args w sub (reverse xs) render one
        (parse_sub-middle fuel rendered middle sub xs _ r leaves)
      ∙ ap (λ l. ok (middle ∷ l ++ rendered ∷ [])) (reverse-reverse xs)
