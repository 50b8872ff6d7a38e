-- ===== src/Prelude/Decimal.antt =====
-- Decimal numbers: `usize::from_str` and the printing of unsigned numbers.
use Prim.Native.Nat.{ℕ, zero, suc, ◌+◌, ◌-◌, ◌*◌, ◌/◌, ◌%◌, ◌^◌, ◌<◌, ◌≤◌}
use mathlib.Core.Path.{◌≡◌, refl, ap, ◌∙◌}
use mathlib.Core.Logic.{inl, inr}
use mathlib.Core.Bool.{Bool, false, not, ◌&&◌}
use mathlib.Core.List.{[], ◌∷◌, ◌++◌}
use mathlib.Core.Option.{Option, none, some}
use native.Mathlib.Omega.{arith}
use native.Mathlib.Numerals.{add-one}
use nanocl.Prelude.Tests.{◌==◌, ltb, leb, if◌then◌else◌, Bool-cases}
use nanocl.Prelude.Lists.{all, all-append}
use nanocl.Prelude.Strings.{Text, Lacks}

abbrev pub usize_mod : ℕ
usize_mod = 2 ^ 64

abbrev pub is_digit : ℕ → Bool
is_digit c = leb b'0' c && leb c b'9'

-- Both checks of the standard library's loop, the digit and the overflow, stop it.
pub digits_from : ℕ → Text → Option ℕ
digits_from acc [] = some acc
digits_from acc (c ∷ s) =
    let n = acc * 10 + (c - b'0') in if is_digit c && ltb n usize_mod then digits_from n s else none

-- One leading `+` is skipped when something follows it; a lone sign and the empty text are refused.
unfoldable pub parse_usize : Text → Option ℕ
unfolding digits_from
parse_usize [] = none
parse_usize (c ∷ []) = digits_from 0 (c ∷ [])
parse_usize (c ∷ d ∷ s) = if c == b'+' then digits_from 0 (d ∷ s) else digits_from 0 (c ∷ d ∷ s)

show_from : ℕ → ℕ → Text
show_from zero n = []
show_from (suc fuel) n =
    let more = show_from fuel (n / 10) ++ (b'0' + n % 10) ∷ [] in
    if ltb n 10 then (b'0' + n) ∷ [] else more

-- `n.to_string()`; the quotient falls in each round, so `n + 1` rounds suffice
unfoldable pub show : ℕ → Text
unfolding show_from
show n = show_from (n + 1) n

digits_from-append :
    (acc m : ℕ) (s : Text) (c : ℕ)
    → digits_from acc s ≡ some m
    → digits_from acc (s ++ c ∷ []) ≡ digits_from m (c ∷ [])
unfolding digits_from
digits_from-append acc m [] c h = ground arith
digits_from-append acc m (x ∷ s) c h =
    ground (arith, digits_from-append (acc * 10 + (x - b'0')) m s c)

digits_from_last :
    (m d : ℕ)
    → d < 10
    → m * 10 + d < usize_mod
    → digits_from m ((b'0' + d) ∷ []) ≡ some (m * 10 + d)
unfolding digits_from
digits_from_last m d h k = ground arith

digits_from-show_from :
    (fuel n : ℕ) → n < fuel → n < usize_mod → digits_from 0 (show_from fuel n) ≡ some n
unfolding show_from
digits_from-show_from zero n h k = elim h [ ]
digits_from-show_from (suc fuel) n h k = elim (Bool-cases (ltb n 10)) [
  | inl small ↦ rw small (digits_from_last 0 n (ground arith) (omega arith) ∙ ap some (omega arith))
  | inr large ↦ rw large (
      digits_from-append 0 (n / 10) (show_from fuel (n / 10)) (b'0' + n % 10)
        (digits_from-show_from fuel (n / 10) (ground arith) (omega arith))
      ∙ digits_from_last (n / 10) (n % 10) (omega arith) (omega arith)
      ∙ ap some (omega arith))
]

-- What is printed starts with a digit.
abbrev StartsDigit : Text → Type 0
StartsDigit [] = ⊥
StartsDigit (c ∷ s) = b'0' ≤ c

StartsDigit-append : (s t : Text) → StartsDigit s → StartsDigit (s ++ t)
StartsDigit-append [] t h = absurd h
StartsDigit-append (c ∷ s) t h = h

StartsDigit-show_from : (fuel n : ℕ) → n < fuel → StartsDigit (show_from fuel n)
unfolding show_from
StartsDigit-show_from zero n h = elim h [ ]
StartsDigit-show_from (suc fuel) n h = elim (Bool-cases (ltb n 10)) [
  | inl small ↦ rw small (omega arith)
  | inr large ↦ rw large (
      StartsDigit-append (show_from fuel (n / 10)) _
        (StartsDigit-show_from fuel (n / 10) (ground arith)))
]

parse_usize_digits : (s : Text) → StartsDigit s → parse_usize s ≡ digits_from 0 s
unfolding parse_usize
parse_usize_digits [] h = absurd h
parse_usize_digits (c ∷ []) h = refl
parse_usize_digits (c ∷ d ∷ s) h = elim (Bool-cases (c == b'+')) [
  | inl e ↦ absurd (ground arith)
  | inr e ↦ rw e
]

-- A printed number is read back.
pub parse_usize-show : (n : ℕ) → n < usize_mod → parse_usize (show n) ≡ some n
unfolding show
parse_usize-show n h =
    parse_usize_digits (show_from (n + 1) n)
      (rw add-one (StartsDigit-show_from (suc n) n (omega arith)))
    ∙ digits_from-show_from (n + 1) n (omega arith) h

last_digit : (c d : ℕ) → d < 10 → is_digit c ≡ false → Lacks c ((b'0' + d) ∷ [])
unfolding all
last_digit c d k h = ground arith

Lacks-show_from : (c fuel n : ℕ) → is_digit c ≡ false → Lacks c (show_from fuel n)
unfolding show_from all
Lacks-show_from c zero n h = refl
Lacks-show_from c (suc fuel) n h = elim (Bool-cases (ltb n 10)) [
  | inl small ↦ rw small (ground arith)
  | inr large ↦ rw large (
      all-append (λ x. not (x == c)) (show_from fuel (n / 10)) ((b'0' + n % 10) ∷ [])
      ∙ rw (Lacks-show_from c fuel (n / 10) h) (last_digit c (n % 10) (omega arith) h))
]

-- A printed number holds digits only.
pub Lacks-show : (c n : ℕ) → is_digit c ≡ false → Lacks c (show n)
unfolding show
Lacks-show c n h = Lacks-show_from c (n + 1) n h
