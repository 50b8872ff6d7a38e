-- ===== src/VmImage/Family.antt =====
-- Every image whose parent is named has it in the table.
use nanocl.Prelude.{
  ℕ, Text, ◌=ₜ◌, =ₜ_sound, Bool, true, false, not, all, any, Option, none, some, List, ◌∷◌, [], map,
  retain, ◌≡◌, refl, sym, ◌∙◌, inl, inr, Bool-cases, arith,
}
use nanocl.VmImage.{VmImageDb}
use nanocl.VmImage.Table.{is_parent, set_sizes}

abbrev pub has_name : Text → List VmImageDb → Bool
has_name name rows = any (λ r. r.name =ₜ name) rows

-- a parent that is named is there
abbrev pub is_there : List VmImageDb → Option Text → Bool
is_there rows none = true
is_there rows (some p) = has_name p rows

abbrev pub HasParents : List VmImageDb → Type 0
HasParents rows = all (λ r. is_there rows r.parent) rows ≡ true

module _ {A : Type 0} where
  all-imp :
      (p q : A → Bool) (xs : List A)
      → ((x : A) → p x ≡ true → q x ≡ true)
      → all p xs ≡ true
      → all q xs ≡ true
  unfolding all
  all-imp p q [] f h = refl
  all-imp p q (x ∷ xs) f h = ground (arith, f x, all-imp p q xs f)

  -- what is left of a list has two properties that all have, the second by what was left out
  all-retain :
      (p q k keep : A → Bool) (xs : List A)
      → ((x : A) → p x ≡ true → k x ≡ false → q x ≡ true)
      → all p xs ≡ true
      → retain k xs ≡ []
      → all q (retain keep xs) ≡ true
  unfolding all retain
  all-retain p q k keep [] f h e = refl
  all-retain p q k keep (x ∷ xs) f h e = ground (arith, f x, all-retain p q k keep xs f)

  all-map :
      (p q : A → Bool) (f : A → A) (xs : List A)
      → ((x : A) → p x ≡ true → q (f x) ≡ true)
      → all p xs ≡ true
      → all q (map f xs) ≡ true
  unfolding all
  all-map p q f [] g h = refl
  all-map p q f (x ∷ xs) g h = ground (arith, g x, all-map p q f xs g)

pub has_name-cons :
    (r : VmImageDb) (name : Text) (rows : List VmImageDb)
    → has_name name rows ≡ true
    → has_name name (r ∷ rows) ≡ true
unfolding any
has_name-cons r name rows h = ground arith

is_there-cons :
    (r : VmImageDb) (rows : List VmImageDb) (p : Option Text)
    → is_there rows p ≡ true
    → is_there (r ∷ rows) p ≡ true
unfolding any
is_there-cons r rows none h = refl
is_there-cons r rows (some p) h = ground arith

pub HasParents-cons :
    (r : VmImageDb) (rows : List VmImageDb)
    → is_there rows r.parent ≡ true
    → HasParents rows
    → HasParents (r ∷ rows)
unfolding all
HasParents-cons r rows new h = ground (
  arith,
  is_there-cons r rows r.parent new,
  all-imp (λ x. is_there rows x.parent) (λ x. is_there (r ∷ rows) x.parent) rows
      (λ x. is_there-cons r rows x.parent) h,
)

has_name-retain :
    (name p : Text) (rows : List VmImageDb)
    → (p =ₜ name) ≡ false
    → has_name p rows ≡ true
    → has_name p (retain (λ r. not (r.name =ₜ name)) rows) ≡ true
unfolding any retain
has_name-retain name p [] ne h = cc
has_name-retain name p (r ∷ rows) ne h = elim (Bool-cases (r.name =ₜ name)) [
  | inr k ↦ ground (arith, has_name-retain name p rows ne)
  | inl k ↦ elim (Bool-cases (r.name =ₜ p)) [
    | inl j ↦ cc (rw (sym (=ₜ_sound r.name p j), k) at ne)
    | inr j ↦ ground (arith, has_name-retain name p rows ne)
  ]
]

is_there-retain :
    (name : Text) (rows : List VmImageDb) (p : Option Text)
    → is_there rows p ≡ true
    → is_parent name p ≡ false
    → is_there (retain (λ r. not (r.name =ₜ name)) rows) p ≡ true
is_there-retain name rows none h k = refl
is_there-retain name rows (some p) h k = has_name-retain name p rows k h

pub HasParents-retain :
    (name : Text) (rows : List VmImageDb)
    → retain (λ r. is_parent name r.parent) rows ≡ []
    → HasParents rows
    → HasParents (retain (λ r. not (r.name =ₜ name)) rows)
HasParents-retain name rows childless h =
    all-retain (λ r. is_there rows r.parent) _ (λ r. is_parent name r.parent)
      (λ r. not (r.name =ₜ name)) rows (λ r. is_there-retain name rows r.parent) h childless

module _ (name : Text) (actual virtual : ℕ) where
  set_sizes-same :
      (r : VmImageDb)
      → ((set_sizes name actual virtual r).name ≡ r.name)
        × ((set_sizes name actual virtual r).parent ≡ r.parent)
  set_sizes-same r = elim (Bool-cases (r.name =ₜ name)) [
    | inl k ↦ rw k (refl, refl)
    | inr k ↦ rw k (refl, refl)
  ]

  has_name-set_sizes :
      (p : Text) (rows : List VmImageDb)
      → has_name p (map (set_sizes name actual virtual) rows) ≡ has_name p rows
  unfolding any
  has_name-set_sizes p [] = refl
  has_name-set_sizes p (r ∷ rows) = rw ((set_sizes-same r).0, has_name-set_sizes p rows) refl

  is_there-set_sizes :
      (rows : List VmImageDb) (p : Option Text)
      → is_there (map (set_sizes name actual virtual) rows) p ≡ is_there rows p
  is_there-set_sizes rows none = refl
  is_there-set_sizes rows (some p) = has_name-set_sizes p rows

  pub HasParents-set_sizes :
      (rows : List VmImageDb)
      → HasParents rows
      → HasParents (map (set_sizes name actual virtual) rows)
  HasParents-set_sizes rows h =
      all-map (λ r. is_there rows r.parent) _ (set_sizes name actual virtual) rows
        (λ r k. rw (set_sizes-same r).1 (is_there-set_sizes rows r.parent ∙ k)) h
