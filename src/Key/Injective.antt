-- ===== src/Key/Injective.antt =====
-- How keys tell objects apart.
use nanocl.Prelude.{
  ℕ, suc, ◌<◌, ==_iff, Text, Lacks, split, split-append, split-Lacks, all, length, ◌==◌, true,
  Bool-cases, ◌≡◌, refl, ap, ap₂, ◌∙◌, [], ◌∷◌, ◌++◌, inl, inr, arith, ◌↔◌, cons_injective,
}
use nanocl.Io.{ok}
use nanocl.Http.{HttpResult}
use nanocl.Key.{gen_key, validate_name, ensure_kind, is_name_char}

Lacks-valid : (name : Text) → all is_name_char name ≡ true → Lacks b'.' name
unfolding all
Lacks-valid [] h = refl
Lacks-valid (c ∷ name) h = ground (arith, Lacks-valid name)

-- A valid name has no dot.
pub Lacks-validate_name : (name : Text) → validate_name name ≡ HttpResult.ok tt → Lacks b'.' name
unfolding validate_name
Lacks-validate_name name h = elim (Bool-cases (all is_name_char name)) [
  | inl e ↦ Lacks-valid name e
  | inr e ↦ absurd (ground (arith, e))
]

append_dot_injective :
    (a a' s s' : Text)
    → Lacks b'.' a
    → Lacks b'.' a'
    → a ++ b'.' ∷ s ≡ a' ++ b'.' ∷ s'
    → (a ≡ a') × (s ≡ s')
unfolding all
append_dot_injective [] [] s s' h h' e = (refl, (cons_injective e).1)
append_dot_injective [] (c ∷ a') s s' h h' e = absurd (ground (arith, (cons_injective e).0))
append_dot_injective (c ∷ a) [] s s' h h' e = absurd (ground (arith, (cons_injective e).0))
append_dot_injective (c ∷ a) (c' ∷ a') s s' h h' e =
    let both = append_dot_injective a a' s s' (ground arith) (ground arith) (cons_injective e).1 in
    (ap₂ (λ x t. x ∷ t) (cons_injective e).0 both.0, both.1)

-- Two objects with valid names have one key only if both their names and their namespaces agree.
pub gen_key_injective :
    (nsp name nsp' name' : Text)
    → validate_name name ≡ HttpResult.ok tt
    → validate_name name' ≡ HttpResult.ok tt
    → gen_key nsp name ≡ gen_key nsp' name'
    → (name ≡ name') × (nsp ≡ nsp')
unfolding gen_key
gen_key_injective nsp name nsp' name' h h' e =
    append_dot_injective name name' nsp nsp' (Lacks-validate_name name h)
      (Lacks-validate_name name' h') e

length-split_pos : (c : ℕ) (s : Text) → 0 < length (split c s)
unfolding split
length-split_pos c [] = omega arith
length-split_pos c (x ∷ s) = ground (arith, length-split_pos c s)

split_one : (c : ℕ) (s : Text) → length (split c s) ≡ 1 → Lacks c s
unfolding split all
split_one c [] h = refl
split_one c (x ∷ s) h = grind (arith, split_one c s, length-split_pos c s)

split_two :
    (c : ℕ) (s : Text)
    → length (split c s) ≡ 2
    → (a : Text) × (b : Text) × Lacks c a × Lacks c b × (s ≡ a ++ c ∷ b)
unfolding split all
split_two c [] h = absurd (omega arith)
split_two c (x ∷ s) h = elim (Bool-cases (x == c)) [
  | inl e ↦ ([], s, refl, split_one c s (ground (arith, h)), ap (λ t. t ∷ s) ((==_iff x c).0 e))
  | inr n ↦
      let (a, b, la, lb, e) = split_two c s (ground (arith, h, length-split_pos c s)) in
      (x ∷ a, b, ground arith, lb, ap (λ t. x ∷ t) e)
]

length-split_two : (c : ℕ) (a b : Text) → Lacks c a → Lacks c b → length (split c (a ++ c ∷ b)) ≡ 2
length-split_two c a b la lb =
    ap length (split-append c a b la) ∙ ap (λ ps. suc (length ps)) (split-Lacks c b lb)

-- A kind is accepted exactly when it is two texts without `/`, joined by one.
pub ensure_kind_iff :
    (kind : Text)
    → (ensure_kind kind ≡ ok tt) ↔ (
        (domain : Text) × (name : Text) × Lacks b'/' domain
        × Lacks b'/' name
        × (kind ≡ domain ++ b'/' ∷ name))
unfolding ensure_kind
ensure_kind_iff kind = elim (Bool-cases (length (split b'/' kind) == 2)) [
  | inl e ↦ (λ _. split_two b'/' kind ((==_iff _ 2).0 e), λ _. rw e)
  | inr n ↦ (
    λ h. absurd (ground (arith, n)),
    λ h. absurd (
        ground
          (arith, n, length-split_two b'/' h.0 h.1 h.2 h.3, ap (λ k. length (split b'/' k)) h.4)),
  )
]
