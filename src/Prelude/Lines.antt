-- ===== src/Prelude/Lines.antt =====
-- Lines of a text: Rust's `str::lines`, and the text of lines that each end with a newline.
use mathlib.Core.Path.{◌≡◌, refl, sym, ap, ap₂, ◌∙◌}
use mathlib.Core.Bool.{Bool, true, not, ◌&&◌}
use mathlib.Core.List.{List, [], ◌∷◌, ◌++◌, map, append_assoc}
use native.Mathlib.Omega.{arith}
use nanocl.Prelude.Tests.{◌==◌, if◌then◌else◌}
use nanocl.Prelude.Lists.{all, is_empty}
use nanocl.Prelude.Strings.{Text, Lacks, split, split-append}

-- a carriage return before the newline belongs to the line's end
unfoldable pub strip_cr : Text → Text
strip_cr [] = []
strip_cr (c ∷ []) = if c == 13 then [] else c ∷ []
strip_cr (c ∷ d ∷ s) = c ∷ strip_cr (d ∷ s)

-- nothing stands behind the last newline
abbrev drop_last : List Text → List Text
drop_last [] = []
drop_last (l ∷ []) = if is_empty l then [] else l ∷ []
drop_last (l ∷ m ∷ ls) = l ∷ drop_last (m ∷ ls)

unfoldable pub lines : Text → List Text
lines s = map strip_cr (drop_last (split 10 s))

unfoldable pub unlines : List Text → Text
unlines [] = []
unlines (l ∷ ls) = l ++ 10 ∷ unlines ls

-- a text without a line break
unfoldable pub is_line : Text → Bool
is_line l = all (λ x. not (x == 10) && not (x == 13)) l

abbrev pub IsLine : Text → Type 0
IsLine l = is_line l ≡ true

IsLine-Lacks : (l : Text) → IsLine l → Lacks 10 l
unfolding all is_line
IsLine-Lacks [] h = refl
IsLine-Lacks (c ∷ l) h = ground (arith, IsLine-Lacks l)

strip_cr_lem : (l : Text) → IsLine l → strip_cr l ≡ l
unfolding strip_cr all is_line
strip_cr_lem [] h = refl
strip_cr_lem (c ∷ []) h = ground arith
strip_cr_lem (c ∷ d ∷ l) h = ap (λ t. c ∷ t) (strip_cr_lem (d ∷ l) (ground arith))

pub unlines-append : (ks ls : List Text) → unlines (ks ++ ls) ≡ unlines ks ++ unlines ls
unfolding unlines
unlines-append [] ls = refl
unlines-append (k ∷ ks) ls =
    ap (λ t. k ++ 10 ∷ t) (unlines-append ks ls)
    ∙ sym (append_assoc k (10 ∷ unlines ks) (unlines ls))

split-unlines : (ls : List Text) → all is_line ls ≡ true → split 10 (unlines ls) ≡ ls ++ [] ∷ []
unfolding unlines all split
split-unlines [] h = refl
split-unlines (l ∷ ls) h =
    split-append 10 l (unlines ls) (IsLine-Lacks l (ground arith))
    ∙ ap (λ t. l ∷ t) (split-unlines ls (ground arith))

drop_last_lem : (ls : List Text) → drop_last (ls ++ [] ∷ []) ≡ ls
drop_last_lem [] = refl
drop_last_lem (l ∷ []) = refl
drop_last_lem (l ∷ m ∷ ls) = ap (λ t. l ∷ t) (drop_last_lem (m ∷ ls))

strip_all : (ls : List Text) → all is_line ls ≡ true → map strip_cr ls ≡ ls
unfolding all
strip_all [] h = refl
strip_all (l ∷ ls) h =
    ap₂ (λ k ks. k ∷ ks) (strip_cr_lem l (ground arith)) (strip_all ls (ground arith))

pub lines-unlines : (ls : List Text) → all is_line ls ≡ true → lines (unlines ls) ≡ ls
unfolding lines
lines-unlines ls h =
    ap (λ t. map strip_cr (drop_last t)) (split-unlines ls h)
    ∙ ap (map strip_cr) (drop_last_lem ls)
    ∙ strip_all ls h
