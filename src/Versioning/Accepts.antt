-- ===== src/Versioning/Accepts.antt =====
-- Which versions are let through.
use nanocl.Prelude.{
  ℕ, ◌<◌, ◌+◌, Text, codes, split, without, Lacks, split-Lacks, split-append, without-Lacks,
  usize_mod, show, parse_usize-show, none, some, [], ◌∷◌, ◌++◌, ◌≡◌, refl, ap, ap₂, ◌∙◌, ◌↔◌, ◌⊎◌,
  arith, Lacks-show,
}
use nanocl.Versioning.{not_found, forward, call}

-- `v<major>.<minor>`, as clients write it
abbrev pub requested : ℕ → ℕ → Text
requested major minor = b'v' ∷ (show major ++ b'.' ∷ show minor)

-- `<major>.<minor>.<rest>`, as the server's version is written
abbrev pub served : ℕ → ℕ → Text → Text
served major minor rest = show major ++ b'.' ∷ (show minor ++ b'.' ∷ rest)

without-append : (c : ℕ) (s t : Text) → without c (s ++ t) ≡ without c s ++ without c t
unfolding without
without-append c [] t = refl
without-append c (x ∷ s) t = ground (arith, without-append c s t)

parts-requested :
    (major minor : ℕ)
    → split b'.' (without b'v' (requested major minor)) ≡ show major ∷ show minor ∷ []
unfolding without
parts-requested major minor =
    ap (split b'.') (
      without-append b'v' (show major) (b'.' ∷ show minor)
      ∙ ap₂ (λ s t. s ++ b'.' ∷ t) (without-Lacks b'v' (show major) (Lacks-show b'v' major refl))
          (without-Lacks b'v' (show minor) (Lacks-show b'v' minor refl)))
    ∙ split-append b'.' (show major) (show minor) (Lacks-show b'.' major refl)
    ∙ ap (λ t. show major ∷ t) (split-Lacks b'.' (show minor) (Lacks-show b'.' minor refl))

parts-served :
    (major minor : ℕ) (rest : Text)
    → split b'.' (served major minor rest) ≡ show major ∷ show minor ∷ split b'.' rest
parts-served major minor rest =
    split-append b'.' (show major) (show minor ++ b'.' ∷ rest) (Lacks-show b'.' major refl)
    ∙ ap (λ t. show major ∷ t) (split-append b'.' (show minor) rest (Lacks-show b'.' minor refl))

-- A request for `v<major>.<minor>` reaches the service exactly when that version is at most the
-- server's, first by the major and then by the minor number.  All four numbers fit a `usize`.
pub call-requested :
    (major minor current_major current_minor : ℕ) (rest : Text)
    → major < usize_mod
    → minor < usize_mod
    → current_major < usize_mod
    → current_minor < usize_mod
    → (call (served current_major current_minor rest) (some (requested major minor)) ≡ forward)
      ↔ ((major < current_major) ⊎ ((major ≡ current_major) × (minor < current_minor + 1)))
unfolding call
call-requested major minor current_major current_minor rest h1 h2 h3 h4 =
    rw
      (
        parts-requested major minor,
        parts-served current_major current_minor rest,
        parse_usize-show major h1,
        parse_usize-show minor h2,
        parse_usize-show current_major h3,
        parse_usize-show current_minor h4,
      )
      (ground arith)

-- A request whose route has no version is let through, and one whose version has no dot never is.
pub call_no_dot :
    (current version : Text)
    → Lacks b'.' (without b'v' version)
    → (call current none ≡ forward)
      × (call current (some version) ≡ not_found (version ++ codes " is invalid"))
unfolding call
call_no_dot current version h = (refl, rw (split-Lacks b'.' (without b'v' version) h))
