-- ===== src/Prelude/Strings.antt =====
-- Text as the list of its code points, and the methods of Rust's `str` that the program uses.
use Prim.Native.Nat.{ℕ}
use Prim.Native.Char.{code}
use Prim.Native.String.{String}
use mathlib.Core.Path.{◌≡◌, refl, sym, ap, ap₂, ◌∙◌}
use mathlib.Core.Logic.{◌↔◌, ◌⊎◌, inl, inr}
use mathlib.Core.Bool.{Bool, true, false, not, ◌&&◌, ◌||◌}
use mathlib.Core.List.{List, [], ◌∷◌, ◌++◌, map}
use native.Mathlib.Omega.{arith}
use nanocl.Prelude.Tests.{◌==◌, ==_iff, if◌then◌else◌, Bool-cases}
use nanocl.Prelude.Lists.{all}

abbrev pub Text : Type 0
Text = List ℕ

abbrev pub codes : String → Text
codes String.[] = []
codes (String.◌∷◌ c s) = code c ∷ codes s

infix 50 ◌=ₜ◌
unfoldable pub ◌=ₜ◌ : Text → Text → Bool
◌=ₜ◌ [] [] = true
◌=ₜ◌ (x ∷ xs) (y ∷ ys) = x == y && xs =ₜ ys
◌=ₜ◌ [] (y ∷ ys) = false
◌=ₜ◌ (x ∷ xs) [] = false

pub =ₜ_refl : (s : Text) → (s =ₜ s) ≡ true
unfolding ◌=ₜ◌
=ₜ_refl [] = refl
=ₜ_refl (x ∷ s) = ground (arith, =ₜ_refl s)

pub =ₜ_sound : (s t : Text) → (s =ₜ t) ≡ true → s ≡ t
unfolding ◌=ₜ◌
=ₜ_sound [] [] h = refl
=ₜ_sound [] (y ∷ t) h = cc
=ₜ_sound (x ∷ s) [] h = cc
=ₜ_sound (x ∷ s) (y ∷ t) h = ground (arith, =ₜ_sound s t)

pub =ₜ_iff : (s t : Text) → ((s =ₜ t) ≡ true) ↔ (s ≡ t)
=ₜ_iff s t = (=ₜ_sound s t, λ e. rw e (=ₜ_refl t))

unfoldable pub starts_with : Text → Text → Bool
starts_with [] s = true
starts_with (p ∷ ps) [] = false
starts_with (p ∷ ps) (x ∷ s) = p == x && starts_with ps s

pub starts_with-append : (p s : Text) → starts_with p (p ++ s) ≡ true
unfolding starts_with
starts_with-append [] s = refl
starts_with-append (x ∷ p) s = ground (arith, starts_with-append p s)

-- a text without the character
abbrev pub Lacks : ℕ → Text → Type 0
Lacks c s = all (λ x. not (x == c)) s ≡ true

-- the head of a split list grows; the list is never empty
abbrev pub push_head : ℕ → List Text → List Text
push_head x [] = (x ∷ []) ∷ []
push_head x (p ∷ ps) = (x ∷ p) ∷ ps

unfoldable pub split : ℕ → Text → List Text
split c [] = [] ∷ []
split c (x ∷ s) = let rest = split c s in if x == c then [] ∷ rest else push_head x rest

pub split-Lacks : (c : ℕ) (a : Text) → Lacks c a → split c a ≡ a ∷ []
unfolding split all
split-Lacks c [] h = refl
split-Lacks c (x ∷ a) h = ground (arith, split-Lacks c a)

pub split-append : (c : ℕ) (a s : Text) → Lacks c a → split c (a ++ c ∷ s) ≡ a ∷ split c s
unfolding split all
split-append c [] s h = ground arith
split-append c (x ∷ a) s h = ground (arith, split-append c a s)

unfoldable pub join : Text → List Text → Text
join sep [] = []
join sep (p ∷ []) = p
join sep (p ∷ q ∷ ps) = p ++ (sep ++ join sep (q ∷ ps))

-- `s.replace(c, "")`
unfoldable pub without : ℕ → Text → Text
without c [] = []
without c (x ∷ s) = let rest = without c s in if x == c then rest else x ∷ rest

pub without-Lacks : (c : ℕ) (s : Text) → Lacks c s → without c s ≡ s
unfolding without all
without-Lacks c [] h = refl
without-Lacks c (x ∷ s) h = ground (arith, without-Lacks c s)

-- `s.contains(t)`
unfoldable pub contains : Text → Text → Bool
unfolding starts_with
contains t [] = starts_with t []
contains t (x ∷ s) = starts_with t (x ∷ s) || contains t s

pub cons_injective {ℓ} :
    {A : Type ℓ} {x y : A} {xs ys : List A} → x ∷ xs ≡ y ∷ ys → (x ≡ y) × (xs ≡ ys)
cons_injective h = (cc, cc)

-- A `match` on a text: the first arm that is equal to it, or the `_` arm.
unfoldable pub match_text {ℓ} : {A : Type ℓ} → Text → List (String × A) → A → A
match_text s [] other = other
match_text s ((k, a) ∷ arms) other = if s =ₜ codes k then a else match_text s arms other

-- The texts of the arms are those that the arms' values print.
abbrev pub ArmsPrint {ℓ} : {A : Type ℓ} → (A → Text) → List (String × A) → Type 0
ArmsPrint print arms = map (λ arm. print arm.1) arms ≡ map (λ arm. codes arm.0) arms

pub print-match_text {ℓ} :
    {A : Type ℓ} (print : A → Text) (s : Text) (arms : List (String × A)) (other : A)
    → ArmsPrint print arms
    → (print (match_text s arms other) ≡ s) ⊎ (match_text s arms other ≡ other)
unfolding match_text
print-match_text print s [] other h = inr refl
print-match_text print s ((k, a) ∷ arms) other h = elim (Bool-cases (s =ₜ codes k)) [
  | inl e ↦ inl (rw e (cons_injective h).0 ∙ sym (=ₜ_sound s (codes k) e))
  | inr n ↦ rw n (print-match_text print s arms other (cons_injective h).1)
]

pub split_cons : (c : ℕ) (s : Text) → (p : Text) × (ps : List Text) × (split c s ≡ p ∷ ps)
unfolding split
split_cons c [] = ([], [], refl)
split_cons c (x ∷ s) = elim (Bool-cases (x == c)) [
  | inl h ↦ ([], split c s, rw h)
  | inr h ↦ let (p, ps, e) = split_cons c s in (x ∷ p, ps, rw (h, e))
]

join_push :
    (sep : Text) (x : ℕ) (p : Text) (ps : List Text)
    → join sep ((x ∷ p) ∷ ps) ≡ x ∷ join sep (p ∷ ps)
unfolding join
join_push sep x p [] = refl
join_push sep x p (q ∷ ps) = refl

pub join-split : (c : ℕ) (s : Text) → join (c ∷ []) (split c s) ≡ s
unfolding split join
join-split c [] = refl
join-split c (x ∷ s) =
    let (p, ps, e) = split_cons c s in
    let ih : join (c ∷ []) (p ∷ ps) ≡ s = ap (join (c ∷ [])) (sym e) ∙ join-split c s in
    elim (Bool-cases (x == c)) [
      | inl h ↦ rw (h, e) (ap₂ (λ y t. y ∷ t) (sym ((==_iff x c).0 h)) ih)
      | inr h ↦ rw (h, e) (join_push (c ∷ []) x p ps ∙ ap (λ t. x ∷ t) ih)
    ]
