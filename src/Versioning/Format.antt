-- ===== src/Versioning/Format.antt =====
-- `format_version`.
use nanocl.Prelude.{
  ℕ, ◌+◌, ◌≡◌, refl, sym, ap, ap₂, ◌∙◌, append_assoc, append-nil, length-append, Text, Lacks,
  length, [], ◌∷◌, ◌++◌, arith, all,
}
use nanocl.Versioning.{format_version, second_dot, take}

-- Characters that are no dots only move the index.
second_dot-Lacks :
    (index dots : ℕ) (a s : Text)
    → Lacks b'.' a
    → second_dot index dots (a ++ s) ≡ second_dot (index + length a) dots s
unfolding second_dot all
second_dot-Lacks index dots [] s h = ap (λ i. second_dot i dots s) (omega arith)
second_dot-Lacks index dots (c ∷ a) s h = ground (arith, second_dot-Lacks (index + 1) dots a s)

take-length : (a s : Text) → take (length a) (a ++ s) ≡ a
take-length [] s = refl
take-length (c ∷ a) s = ap (λ t. c ∷ t) (take-length a s)

second_dot_end : (index dots : ℕ) (a : Text) → Lacks b'.' a → second_dot index dots a ≡ 0
unfolding second_dot
second_dot_end index dots a h =
    ap (second_dot index dots) (sym (append-nil a)) ∙ second_dot-Lacks index dots a [] h

second_dot_two :
    (major minor rest : Text)
    → Lacks b'.' major
    → Lacks b'.' minor
    → second_dot 0 0 (major ++ b'.' ∷ (minor ++ b'.' ∷ rest)) ≡ length (major ++ b'.' ∷ minor)
unfolding second_dot
second_dot_two major minor rest h k =
    second_dot-Lacks 0 0 major (b'.' ∷ (minor ++ b'.' ∷ rest)) h
    ∙ second_dot-Lacks (0 + length major + 1) 1 minor (b'.' ∷ rest) k
    ∙ omega (arith, length-append major (b'.' ∷ minor))

-- What stands before the second dot is kept: `<major>.<minor>` of `<major>.<minor>.<rest>`.
pub format_version-dots :
    (major minor rest : Text)
    → Lacks b'.' major
    → Lacks b'.' minor
    → format_version (major ++ b'.' ∷ (minor ++ b'.' ∷ rest)) ≡ major ++ b'.' ∷ minor
unfolding format_version
format_version-dots major minor rest h k =
    let kept : Text = major ++ b'.' ∷ minor in
    ap₂ take (second_dot_two major minor rest h k)
      (sym (append_assoc major (b'.' ∷ minor) (b'.' ∷ rest)))
    ∙ take-length kept (b'.' ∷ rest)

-- A version with fewer than two dots is formatted as the empty text.
pub format_version_short :
    (major minor : Text)
    → Lacks b'.' major
    → Lacks b'.' minor
    → (format_version (major ++ b'.' ∷ minor) ≡ []) × (format_version major ≡ [])
unfolding format_version second_dot
format_version_short major minor h k = (
  ap (λ i. take i (major ++ b'.' ∷ minor))
      (second_dot-Lacks 0 0 major (b'.' ∷ minor) h
        ∙ second_dot_end (0 + length major + 1) 1 minor k),
  ap (λ i. take i major) (second_dot_end 0 0 major h),
)
