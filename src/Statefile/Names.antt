-- ===== src/Statefile/Names.antt =====
-- The names in a list of objects, and which of them the orphans have.
use mathlib.Core.Option
use nanocl.Prelude.{
  Text, ◌=ₜ◌, =ₜ_sound, =ₜ_refl, Bool, true, false, not, ◌&&◌, ◌||◌, Bool-cases, Option, none,
  is_none, some, List, [], ◌∷◌, map, any, retain, All, ◌≡◌, refl, sym, subst, ap, ◌∙◌, inl, inr,
  unwrap_or,
}
use nanocl.Statefile.Remove.{removed}

abbrev pub names : {A : Type 0} → (A → Text) → Option (List A) → List Text
names name xs = unwrap_or (Option.map (map name) xs) []

-- whether one of the list has the name
abbrev pub has_name : {A : Type 0} → (A → Text) → List A → Text → Bool
has_name name xs n = any (λ x. name x =ₜ n) xs

and_false : (b : Bool) → (b && false) ≡ false
and_false true = refl
and_false false = refl

-- The names that are left are those of old objects that are not among the new.
pub removed_lem :
    {A : Type 0} (name : A → Text) (old new : List A) (n : Text)
    → has_name name (removed name old new) n ≡ (has_name name old n && not (has_name name new n))
unfolding removed retain any
removed_lem name [] new n = refl
removed_lem name (o ∷ old) new n =
    let rest = removed_lem name old new n in
    elim (Bool-cases (any (λ x. name x =ₜ name o) new)) [
      | inl h ↦ elim (Bool-cases (name o =ₜ n)) [
        | inl k ↦
            let named = subst (λ m. has_name name new m ≡ true) (=ₜ_sound (name o) n k) h in
            rw (h, k) (rest ∙ rw named (and_false (has_name name old n)))
        | inr k ↦ rw (h, k) rest
      ]
      | inr h ↦ elim (Bool-cases (name o =ₜ n)) [
        | inl k ↦
            let named = subst (λ m. has_name name new m ≡ false) (=ₜ_sound (name o) n k) h in
            rw (h, k, named) refl
        | inr k ↦ rw (h, k) rest
      ]
    ]

has_name-map :
    {A : Type 0} (name : A → Text) (xs : List A) (n : Text)
    → has_name (λ m. m) (map name xs) n ≡ has_name name xs n
unfolding any
has_name-map name [] n = refl
has_name-map name (x ∷ xs) n = ap (λ b. name x =ₜ n || b) (has_name-map name xs n)

and_right : (a b : Bool) → (a && b) ≡ true → b ≡ true
and_right true b h = h
and_right false b h = cc

-- A name among the orphans of a list is not in it.
pub orphan_new :
    {A : Type 0} (name : A → Text) (old : List A) (new : Option (List A)) (n : Text)
    → has_name (λ m. m) (names name (Option.map (removed name old) new)) n ≡ true
    → (not (is_none new) && not (has_name (λ m. m) (names name new) n)) ≡ true
unfolding any
orphan_new name old none n h = cc
orphan_new name old (some new) n h = rw (has_name-map name new n) (
    and_right (has_name name old n) _
      (sym (removed_lem name old new n) ∙ sym (has_name-map name (removed name old new) n) ∙ h))

or_true : (b : Bool) → (b || true) ≡ true
or_true true = refl
or_true false = refl

pub All-imp :
    {A : Type 0} (P Q : A → Type 0) (xs : List A) → ((x : A) → P x → Q x) → All P xs → All Q xs
All-imp P Q [] f p = tt
All-imp P Q (x ∷ xs) f (px, p) = (f x px, All-imp P Q xs f p)

pub all_named : (xs : List Text) → All (λ x. has_name (λ m. m) xs x ≡ true) xs
unfolding any
all_named [] = tt
all_named (x ∷ xs) =
    (rw (=ₜ_refl x) refl, All-imp _ _ xs (λ y h. rw h (or_true (x =ₜ y))) (all_named xs))
