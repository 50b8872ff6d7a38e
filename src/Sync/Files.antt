-- ===== src/Sync/Files.antt =====
-- The files of images that the table has.
use nanocl.Prelude.{
  Text, codes, Lacks, all, split, split-Lacks, split_cons, join, join-split, List, [], ◌∷◌, ◌++◌,
  ◌≡◌, refl, sym, ap, ◌∙◌, All, Bool-cases, ◌==◌, inl, inr,
}
use nanocl.Io.{Result, ok}
use nanocl.VmImage.{VmImageDb, ImageStore}
use nanocl.Effect.{for_each}
use nanocl.Sync.Images.{stem, sync_vm_image, sync_vm_images}

split-last :
    (name ext : Text)
    → Lacks b'.' ext
    → split b'.' (name ++ b'.' ∷ ext) ≡ split b'.' name ++ ext ∷ []
unfolding split
split-last [] ext h = ap (λ l. [] ∷ l) (split-Lacks b'.' ext h)
split-last (x ∷ name) ext h = elim (Bool-cases (x == b'.')) [
  | inl e ↦ rw (e, split-last name ext h)
  | inr e ↦ let (p, ps, s) = split_cons b'.' name in rw (e, split-last name ext h, s)
]

stem-last :
    (p : Text) (ps : List Text) (ext : Text)
    → stem (p ∷ (ps ++ ext ∷ [])) ≡ join (b'.' ∷ []) (p ∷ ps)
unfolding stem join
stem-last p [] ext = refl
stem-last p (q ∷ []) ext = refl
stem-last p (q ∷ r ∷ ps) ext = ap (λ t. p ++ (b'.' ∷ t)) (stem-last q (r ∷ ps) ext)

-- The name of a file without its extension is what is in front of the last dot.
pub stem-split : (name ext : Text) → Lacks b'.' ext → stem (split b'.' (name ++ b'.' ∷ ext)) ≡ name
stem-split name ext h =
    let (p, ps, s) = split_cons b'.' name in
    rw (split-last name ext h, s) (stem-last p ps ext)
    ∙ ap (join (b'.' ∷ [])) (sym s)
    ∙ join-split b'.' name

module _ {World : Type 0} (s : ImageStore World)
    (read_dir : Text → World → Result (List (Text × Text))) (w : World) where
  -- the file that a creation makes, of an image that the table has
  pub record IsKnown (file : Text × Text) : Type 0 where
    pub name : Text
    pub image : VmImageDb
    pub named : file.0 ≡ name ++ codes ".img"
    pub stored : s.read_by_pk name w ≡ ok image

  sync_vm_image-known :
      (file : Text × Text) → IsKnown file → sync_vm_image s read_dir file w ≡ (ok tt, w)
  unfolding sync_vm_image all
  sync_vm_image-known (file_name, path) k =
      rw (k.named, stem-split k.name (codes "img") refl, k.stored)

  for_each-known :
      (files : List (Text × Text))
      → All IsKnown files
      → for_each (sync_vm_image s read_dir) files w ≡ (ok tt, w)
  unfolding for_each
  for_each-known [] k = refl
  for_each-known (file ∷ files) (k, ks) = rw (sync_vm_image-known file k) (for_each-known files ks)

  -- Where each file of the directory has the name that a creation gives it, of an image that the
  -- table has, nothing is changed.
  pub sync_vm_images-known :
      (files : List (Text × Text))
      → read_dir (s.state_dir ++ codes "/vms/images") w ≡ ok files
      → All IsKnown files
      → sync_vm_images s read_dir w ≡ (ok tt, w)
  unfolding sync_vm_images
  sync_vm_images-known files h ks = rw h (for_each-known files ks)
