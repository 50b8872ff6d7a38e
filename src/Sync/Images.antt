-- ===== src/Sync/Images.antt =====
-- The files of images: sync_vm_images of utils/system.rs.
use nanocl.Prelude.{Text, codes, split, List, [], ◌∷◌, ◌++◌}
use nanocl.Io.{Result, ok, err}
use nanocl.Effect.{Effect, pure, reading, for_each, ◌>>=◌}
use nanocl.VmImage.{VmImageDb, ImageStore}
use nanocl.VmImage as VmImage

-- the name of a file without the part after its last dot
unfoldable pub stem : List Text → Text
stem [] = []
stem (part ∷ []) = part
stem (part ∷ last ∷ []) = part
stem (part ∷ q ∷ r ∷ parts) = part ++ (codes "." ++ stem (q ∷ r ∷ parts))

module _ {World : Type 0} (s : ImageStore World)
    (read_dir : Text → World → Result (List (Text × Text))) where
  abbrev unless_known : Text → Text → Result VmImageDb → Effect World (Unit {0})
  unless_known name path (ok _) = pure tt
  unless_known name path (err _) = λ w. (ok tt, (VmImage.create s name path w).1)

  -- The failure of a creation is logged.
  unfoldable pub sync_vm_image : Text × Text → Effect World (Unit {0})
  sync_vm_image (file_name, path) w =
      let name = stem (split b'.' file_name) in unless_known name path (s.read_by_pk name w) w

  unfoldable pub sync_vm_images : Effect World (Unit {0})
  sync_vm_images = do
    files ← reading (read_dir (s.state_dir ++ codes "/vms/images"))
    for_each sync_vm_image files
