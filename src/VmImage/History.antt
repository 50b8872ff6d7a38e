-- ===== src/VmImage/History.antt =====
-- Sequences of operations on images.
use nanocl.Prelude.{ℕ, Text, List, [], ◌∷◌, inl, inr}
use nanocl.Io.{Result-cases}
use nanocl.Http.Effect.{◌>>=◌}
use nanocl.VmImage.{
  VmImageDb, VmImageResizePayload, ImageStore, reading, delete_by_pk, create_snap, clone_future,
  resize_by_name, create,
}
use nanocl.VmImage.Table.{IsTable}
use nanocl.VmImage.Family.{HasParents}
use nanocl.VmImage.Kept.{
  delete_by_pk-Keeps, create-Keeps, clone_future-Keeps, resize-Keeps, create_snap-Keeps,
}

-- What is done with images: one is deleted, a snapshot is made of one that is read by its name, a
-- clone is stored, one is resized, a file is stored.
pub data Operation : Type 0 where
  deleted : Text → Operation
  -- the name of the image, of the snapshot, and the size
  snapped : Text → Text → ℕ → Operation
  cloned : Text → VmImageDb → Operation
  resized : Text → VmImageResizePayload → Operation
  -- the name and the file
  stored : Text → Text → Operation

module _ {World : Type 0} (s : ImageStore World) where
  -- The results are left out: an operation that fails may have changed something too.
  abbrev pub after : Operation → World → World
  after (deleted pk) w = (delete_by_pk s pk w).1
  after (snapped pk name size) w = ((reading s (s.read_by_pk pk) >>= create_snap s name size) w).1
  after (cloned name image) w = (clone_future s name image w).1
  after (resized name payload) w = (resize_by_name s name payload w).1
  after (stored name filepath) w = (create s name filepath w).1

  abbrev pub after_all : List Operation → World → World
  after_all [] w = w
  after_all (op ∷ ops) w = after_all ops (after op w)

  module _ (t : IsTable s) where
    after-HasParents :
        (op : Operation) (w : World) → HasParents (t.rows w) → HasParents (t.rows (after op w))
    unfolding resize_by_name
    after-HasParents (deleted pk) w p = (delete_by_pk-Keeps s t pk).run w p
    after-HasParents (snapped pk name size) w p = elim (Result-cases (s.read_by_pk pk w)) [
      | inr (e, h) ↦ rw h p
      | inl (image, h) ↦
          rw h ((create_snap-Keeps s t name size image).run w (p, t.read_ok pk image w h)).0
    ]
    after-HasParents (cloned name image) w p = (clone_future-Keeps s t name image).run w p
    after-HasParents (resized name payload) w p = elim (Result-cases (s.read_by_pk name w)) [
      | inr (e, h) ↦ rw h p
      | inl (image, h) ↦ rw h ((resize-Keeps s t image payload).run w p)
    ]
    after-HasParents (stored name filepath) w p = (create-Keeps s t name filepath).run w p

    -- No sequence of deletions, snapshots, clones, resizes and stored files, with success or not,
    -- leaves an image whose parent is missing.
    pub after_all-HasParents :
        (ops : List Operation) (w : World)
        → HasParents (t.rows w)
        → HasParents (t.rows (after_all ops w))
    after_all-HasParents [] w p = p
    after_all-HasParents (op ∷ ops) w p =
        after_all-HasParents ops (after op w) (after-HasParents op w p)
