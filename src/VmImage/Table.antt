-- ===== src/VmImage/Table.antt =====
-- What is relied on of the table of images.
use nanocl.Prelude.{
  ℕ, Text, ◌=ₜ◌, Bool, true, false, not, Option, none, some, List, ◌∷◌, any, map, retain, ◌≡◌,
  if◌then◌else◌,
}
use nanocl.Io.{IoError, ok, err}
use nanocl.VmImage.{VmImageDb, ImageStore}

abbrev pub is_parent : Text → Option Text → Bool
is_parent name none = false
is_parent name (some p) = p =ₜ name

abbrev pub set_sizes : Text → ℕ → ℕ → VmImageDb → VmImageDb
set_sizes name actual virtual r =
    if r.name =ₜ name then record r { size_actual = actual; size_virtual = virtual } else r

-- The table has rows. A call that fails changes none; one that succeeds returns or changes the
-- rows that it names, and a row that is created comes as it was given. Files and programs change no
-- row.
pub record IsTable {World : Type 0} (s : ImageStore World) : Type 0 where
  pub rows : World → List VmImageDb
  pub read_ok :
      (name : Text) (r : VmImageDb) (w : World)
      → s.read_by_pk name w ≡ ok r
      → any (λ x. x.name =ₜ r.name) (rows w) ≡ true
  pub children :
      (name : Text) (w : World) (rs : List VmImageDb)
      → s.read_by_parent name w ≡ ok rs
      → rs ≡ retain (λ r. is_parent name r.parent) (rows w)
  pub create_ok :
      (r x : VmImageDb) (w : World)
      → (s.create_from r w).0 ≡ ok x
      → rows (s.create_from r w).1 ≡ r ∷ rows w
  pub create_err :
      (r : VmImageDb) (e : IoError) (w : World)
      → (s.create_from r w).0 ≡ err e
      → rows (s.create_from r w).1 ≡ rows w
  pub del_ok :
      (name : Text) (w : World)
      → (s.del_by_pk name w).0 ≡ ok tt
      → rows (s.del_by_pk name w).1 ≡ retain (λ r. not (r.name =ₜ name)) (rows w)
  pub del_err :
      (name : Text) (e : IoError) (w : World)
      → (s.del_by_pk name w).0 ≡ err e
      → rows (s.del_by_pk name w).1 ≡ rows w
  pub update_ok :
      (name : Text) (actual virtual : ℕ) (x : VmImageDb) (w : World)
      → (s.update_pk name actual virtual w).0 ≡ ok x
      → rows (s.update_pk name actual virtual w).1 ≡ map (set_sizes name actual virtual) (rows w)
  pub update_err :
      (name : Text) (actual virtual : ℕ) (e : IoError) (w : World)
      → (s.update_pk name actual virtual w).0 ≡ err e
      → rows (s.update_pk name actual virtual w).1 ≡ rows w
  pub file_rows : (path : Text) (w : World) → rows (s.remove_file path w) ≡ rows w
  pub run_rows : (args : List Text) (w : World) → rows (s.qemu_img args w).1 ≡ rows w
