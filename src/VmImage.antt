-- ===== src/VmImage.antt =====
-- The images of machines: bin/nanocld/src/utils/vm_image.rs. The table of images, the program
-- qemu-img and the files are a parameter. The progress that `clone` streams is left out.
pub mod Table
pub mod Family
pub mod Kept
pub mod History
use nanocl.Prelude.{
  ℕ, Text, codes, show, ◌=ₜ◌, Bool, true, false, not, is_empty, Option, none, some, List, [], ◌∷◌,
  ◌++◌, ◌⊎◌, inl, inr, if◌then◌else◌,
}
use nanocl.Io.{Result}
use nanocl.Http.{HttpError, HttpResult, bad_request, conflict, internal_server_error}
use nanocl.Http.Effect.{HttpEffect, pure, raise, io, continue, ◌>>=◌, ◌>>◌}
use nanocl.Effect as Io_effect

pub record VmImageDb : Type 0 where
  pub name : Text
  pub node_name : Text
  pub created_at : ℕ
  pub kind : Text
  pub path : Text
  pub format : Text
  pub size_actual : ℕ
  pub size_virtual : ℕ
  pub parent : Option Text

pub record QemuImgInfo : Type 0 where
  pub format : Text
  pub actual_size : ℕ
  pub virtual_size : ℕ

pub record VmImageResizePayload : Type 0 where
  pub size : ℕ
  pub shrink : Bool

-- A run of a program: it did not start, or it ended with success or not, what it printed, and the
-- text of its output for messages.
pub data Run : Type 0 where
  not_run : Text → Run
  ended : Bool → Text → Text → Run

pub record ImageStore (World : Type 0) : Type 0 where
  -- `state.inner.config`
  pub state_dir : Text
  pub hostname : Text
  pub now : World → ℕ
  -- `VmImageDb::read_by_pk` and the other calls of the table; an update sets the two sizes
  pub read_by_pk : Text → World → Result VmImageDb
  pub read_by_parent : Text → World → Result (List VmImageDb)
  pub create_from : VmImageDb → World → Result VmImageDb × World
  pub del_by_pk : Text → World → Result (Unit {0}) × World
  pub update_pk : Text → ℕ → ℕ → World → Result VmImageDb × World
  -- the failure of a removal is logged
  pub remove_file : Text → World → World
  -- the run of `qemu-img` with arguments
  pub qemu_img : List Text → World → Run × World
  -- what it prints as information on an image, or the text of an error
  pub parse_info : Text → Text ⊎ QemuImgInfo

abbrev is_ok : {A : Type 0} → Result A → Bool
is_ok (Result.ok _) = true
is_ok (Result.err _) = false

module _ {World : Type 0} (s : ImageStore World) where
  abbrev reading : {A : Type 0} → (World → Result A) → HttpEffect World A
  reading f = io (Io_effect.reading f)

  abbrev failing_if : Bool → HttpError → HttpEffect World (Unit {0})
  failing_if true e = raise e
  failing_if false e = pure tt

  -- fails if an image has the name
  abbrev unused : Text → HttpEffect World (Unit {0})
  unused name w =
      failing_if (is_ok (s.read_by_pk name w))
        (conflict (codes "Vm image " ++ (name ++ codes " already used"))) w

  abbrev pub img_path : Text → Text
  img_path name = s.state_dir ++ (codes "/vms/images/" ++ (name ++ codes ".img"))

  -- what a run printed; the error of one that failed begins with a text
  abbrev printed : Text → Run → HttpResult Text
  printed what (not_run m) = HttpResult.err (internal_server_error (what ++ m))
  printed what (ended true out shown) = HttpResult.ok out
  printed what (ended false out shown) = HttpResult.err (internal_server_error (what ++ shown))

  -- the message of a resize that did not run names the path of the image it was made from
  abbrev resized : Text → Text → Run → HttpResult (Unit {0})
  resized path name (not_run m) =
      HttpResult.err
        (internal_server_error (codes "Failed to resize snapshot " ++ (path ++ (codes ": " ++ m))))
  resized path name (ended true out shown) = HttpResult.ok tt
  resized path name (ended false out shown) = HttpResult.err (
      internal_server_error (codes "Failed to resize snapshot " ++ (name ++ (codes ": " ++ shown))))

  abbrev qemu : Text → List Text → HttpEffect World Text
  qemu what args w = let (r, w') = s.qemu_img args w in (printed what r, w')

  abbrev parsed : Text → Text ⊎ QemuImgInfo → HttpResult QemuImgInfo
  parsed path (inl m) =
      HttpResult.err
        (internal_server_error (codes "Failed to parse info of " ++ (path ++ (codes ": " ++ m))))
  parsed path (inr info) = HttpResult.ok info

  abbrev print_info : Text → HttpEffect World Text
  print_info path =
      qemu (codes "Failed to get info of " ++ (path ++ codes ": "))
        (codes "info" ∷ codes "--output=json" ∷ path ∷ [])

  unfoldable pub get_info : Text → HttpEffect World QemuImgInfo
  get_info path = do out ← print_info path; λ w. (parsed path (s.parse_info out), w)

  abbrev pub image_row : Text → Text → Text → Option Text → QemuImgInfo → ℕ → VmImageDb
  image_row name kind path parent info now = record {
    name = name;
    node_name = s.hostname;
    created_at = now;
    kind = kind;
    path = path;
    format = info.format;
    size_actual = info.actual_size;
    size_virtual = info.virtual_size;
    parent = parent;
  }

  abbrev store : Text → Text → Text → Option Text → QemuImgInfo → HttpEffect World VmImageDb
  store name kind path parent info w =
      io (s.create_from (image_row name kind path parent info (s.now w))) w

  abbrev childless : Text → List VmImageDb → HttpEffect World (Unit {0})
  childless pk children = failing_if (not (is_empty children)) (
      conflict (codes "Vm image " ++ (pk ++ codes " has children images please delete them first")))

  abbrev removing : Text → HttpEffect World (Unit {0})
  removing path w = (HttpResult.ok tt, s.remove_file path w)

  unfoldable pub delete_by_pk : Text → HttpEffect World (Unit {0})
  delete_by_pk pk = do
    vm_image ← reading (s.read_by_pk pk)
    children ← reading (s.read_by_parent pk)
    childless pk children
    removing vm_image.path
    io (s.del_by_pk pk)

  abbrev snapshot : Text → Text → HttpEffect World Text
  snapshot name path = qemu (codes "Failed to create snapshot " ++ (name ++ codes ": ")) (
      codes "create"
      ∷ codes "-F"
      ∷ codes "qcow2"
      ∷ codes "-f"
      ∷ codes "qcow2"
      ∷ codes "-b"
      ∷ path
      ∷ img_path name
      ∷ [])

  abbrev resize_snapshot : Text → Text → ℕ → HttpEffect World (Unit {0})
  resize_snapshot name path size w =
      let (r, w') = s.qemu_img (codes "resize" ∷ img_path name ∷ (show size ++ codes "G") ∷ []) w in
      (resized path name r, w')

  unfoldable pub create_snap : Text → ℕ → VmImageDb → HttpEffect World VmImageDb
  create_snap name size image = do
    unused name
    snapshot name image.path
    resize_snapshot name image.path size
    info ← get_info (img_path name)
    store name (codes "Snapshot") (img_path name) (some image.name) info

  abbrev convert : Text → Text → HttpEffect World Text
  convert name path = qemu (codes "Failed to convert snapshot to base ") (
      codes "convert"
      ∷ codes "-p"
      ∷ codes "-O"
      ∷ codes "qcow2"
      ∷ codes "-c"
      ∷ path
      ∷ img_path name
      ∷ [])

  -- the future that `clone` spawns
  unfoldable pub clone_future : Text → VmImageDb → HttpEffect World VmImageDb
  clone_future name image = do
    convert name image.path
    info ← get_info (img_path name)
    store name (codes "Base") (img_path name) none info

  abbrev snapshot_only : Text → Text → HttpEffect World (Unit {0})
  snapshot_only name kind =
      failing_if (not (kind =ₜ codes "Snapshot"))
        (bad_request (codes "Vm image " ++ (name ++ codes " is not a snapshot")))

  unfoldable pub clone : Text → VmImageDb → HttpEffect World (HttpEffect World VmImageDb)
  clone name image = do snapshot_only name image.kind; unused name; pure (clone_future name image)

  abbrev shrink_arg : Bool → List Text
  shrink_arg true = codes "--shrink" ∷ []
  shrink_arg false = []

  abbrev unable : Run → HttpResult (Unit {0})
  unable (not_run m) = HttpResult.err (internal_server_error (codes "Unable to resize image " ++ m))
  unable (ended true out shown) = HttpResult.ok tt
  unable (ended false out shown) =
      HttpResult.err (internal_server_error (codes "Unable to resize image " ++ out))

  abbrev resize_file : Text → VmImageResizePayload → HttpEffect World (Unit {0})
  resize_file path payload w =
      let (r, w') =
        s.qemu_img
          (codes "resize"
            ∷ (shrink_arg payload.shrink ++ (path ∷ (show payload.size ++ codes "G") ∷ [])))
          w in
      (unable r, w')

  abbrev store_sizes : Text → QemuImgInfo → HttpEffect World VmImageDb
  store_sizes name info = io (s.update_pk name info.actual_size info.virtual_size)

  unfoldable pub resize : VmImageDb → VmImageResizePayload → HttpEffect World VmImageDb
  resize image payload = do
    resize_file image.path payload
    info ← get_info image.path
    store_sizes image.name info

  unfoldable pub resize_by_name : Text → VmImageResizePayload → HttpEffect World VmImageDb
  resize_by_name name payload = do image ← reading (s.read_by_pk name); resize image payload

  -- A file that has no information is removed.
  abbrev or_removed : Text → HttpResult QemuImgInfo → HttpEffect World QemuImgInfo
  or_removed filepath (HttpResult.err e) w = (HttpResult.err e, s.remove_file filepath w)
  or_removed filepath (HttpResult.ok info) w = (HttpResult.ok info, w)

  abbrev info_or_removed : Text → HttpEffect World QemuImgInfo
  info_or_removed filepath w = or_removed filepath (get_info filepath w).0 (get_info filepath w).1

  unfoldable pub create : Text → Text → HttpEffect World VmImageDb
  create name filepath = do
    info ← info_or_removed filepath
    store name (codes "Base") filepath none info
