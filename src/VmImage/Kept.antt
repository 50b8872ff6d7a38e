-- ===== src/VmImage/Kept.antt =====
-- Each operation on images keeps it that parents are there.
use nanocl.Prelude.{
  ℕ, Text, Bool, true, false, Option, none, some, List, [], ◌∷◌, ◌≡◌, refl, sym, subst, inl, inr,
}
use nanocl.Io.{ok, Result-cases}
use nanocl.Http.{HttpResult-cases, HttpError}
use nanocl.Http.Effect.{HttpEffect, io, ◌>>=◌, ◌>>◌}
use nanocl.VmImage.{
  VmImageDb, QemuImgInfo, VmImageResizePayload, ImageStore, get_info, delete_by_pk, create_snap,
  resize, create, store, image_row, failing_if, unused, print_info, childless, removing,
  info_or_removed, clone_future, convert, img_path, resize_file, snapshot, resize_snapshot,
}
use nanocl.VmImage.Table.{IsTable}
use nanocl.VmImage.Family.{
  HasParents, HasParents-cons, HasParents-retain, HasParents-set_sizes, has_name, has_name-cons,
}

module _ {World : Type 0} (s : ImageStore World) (t : IsTable s) where
  -- A run keeps a property of the rows, whether it succeeds or not.
  pub record Keeps (P : List VmImageDb → Type 0) {A : Type 0} (m : HttpEffect World A)
      : Type 0 where
    pub run : (w : World) → P (t.rows w) → P (t.rows (m w).1)

  module _ (P : List VmImageDb → Type 0) where
    pub bind-Keeps :
        {A B : Type 0} (m : HttpEffect World A) (f : A → HttpEffect World B)
        → Keeps P m
        → ((a : A) → Keeps P (f a))
        → Keeps P (m >>= f)
    bind-Keeps m f hm hf = record {
      run = λ w p. elim (HttpResult-cases (m w).0) [
        | inl (a, h) ↦ rw h ((hf a).run (m w).1 (hm.run w p))
        | inr (e, h) ↦ rw h (hm.run w p)
      ];
    }

    pub then-Keeps :
        {A B : Type 0} (m : HttpEffect World A) (n : HttpEffect World B)
        → Keeps P m
        → Keeps P n
        → Keeps P (m >> n)
    then-Keeps m n hm hn = record { run = λ w p. (bind-Keeps m (λ _. n) hm (λ _. hn)).run w p }

    -- what changes no row
    pub same-Keeps :
        {A : Type 0} (m : HttpEffect World A)
        → ((w : World) → t.rows (m w).1 ≡ t.rows w)
        → Keeps P m
    same-Keeps m h = record { run = λ w p. subst P (sym (h w)) p }

    failing_if-Keeps : (b : Bool) (e : HttpError) → Keeps P (failing_if s b e)
    failing_if-Keeps true e = same-Keeps _ λ w. refl
    failing_if-Keeps false e = same-Keeps _ λ w. refl

    unused-Keeps : (name : Text) → Keeps P (unused s name)
    unused-Keeps name = record { run = λ w p. (failing_if-Keeps _ _).run w p }

    get_info-Keeps : (path : Text) → Keeps P (get_info s path)
    unfolding get_info
    get_info-Keeps path = record {
      run = λ w p. elim (HttpResult-cases (print_info s path w).0) [
        | inl (out, h) ↦ rw h (subst P (sym (t.run_rows _ w)) p)
        | inr (e, h) ↦ rw h (subst P (sym (t.run_rows _ w)) p)
      ];
    }

    -- a row that is stored, where the property takes it
    store-Keeps :
        (name kind path : Text) (parent : Option Text) (info : QemuImgInfo)
        → ((now : ℕ) (rows : List VmImageDb)
            → P rows
            → P (image_row s name kind path parent info now ∷ rows))
        → Keeps P (store s name kind path parent info)
    store-Keeps name kind path parent info grow = record {
      run = λ w p.
          let r = image_row s name kind path parent info (s.now w) in
          elim (Result-cases (s.create_from r w).0) [
            | inl (x, h) ↦ rw (t.create_ok r x w h) (grow (s.now w) (t.rows w) p)
            | inr (e, h) ↦ rw (t.create_err r e w h) p
          ];
    }

  -- the deletion of a row without children
  del_childless-Keeps :
      (pk : Text) (rs : List VmImageDb) (w : World)
      → s.read_by_parent pk w ≡ ok rs
      → HasParents (t.rows w)
      → (path : Text)
      → HasParents (t.rows ((childless s pk rs >> (removing s path >> io (s.del_by_pk pk))) w).1)
  del_childless-Keeps pk (x ∷ rs) w listed p path = p
  del_childless-Keeps pk [] w listed p path =
      let w' = s.remove_file path w in
      let same = t.file_rows path w in
      elim (Result-cases (s.del_by_pk pk w').0) [
        | inl (_, h) ↦
            rw (t.del_ok pk w' h, same)
              (HasParents-retain pk (t.rows w) (sym (t.children pk w [] listed)) p)
        | inr (e, h) ↦ rw (t.del_err pk e w' h, same) p
      ]

  -- Deleting an image leaves no image without its parent, whether the deletion succeeds or not.
  pub delete_by_pk-Keeps : (pk : Text) → Keeps HasParents (delete_by_pk s pk)
  unfolding delete_by_pk
  delete_by_pk-Keeps pk = record {
    run = λ w p. elim (Result-cases (s.read_by_pk pk w)) [
      | inr (e, h) ↦ rw h p
      | inl (image, h) ↦ elim (Result-cases (s.read_by_parent pk w)) [
        | inr (e, k) ↦ rw (h, k) p
        | inl (rs, k) ↦ rw (h, k) (del_childless-Keeps pk rs w k p image.path)
      ]
    ];
  }

  -- a row without a parent
  orphan-Keeps :
      (name kind path : Text) (info : QemuImgInfo)
      → Keeps HasParents (store s name kind path none info)
  orphan-Keeps name kind path info =
      store-Keeps HasParents name kind path none info λ now rows p. HasParents-cons _ rows refl p

  -- Storing a file as an image leaves no image without its parent.
  pub create-Keeps : (name filepath : Text) → Keeps HasParents (create s name filepath)
  unfolding create
  create-Keeps name filepath =
      bind-Keeps HasParents (info_or_removed s filepath) _
        (record {
          run = λ w p. elim (HttpResult-cases (get_info s filepath w).0) [
            | inl (info, h) ↦ rw h ((get_info-Keeps HasParents filepath).run w p)
            | inr (e, h) ↦ rw h (
                subst HasParents (sym (t.file_rows filepath _))
                  ((get_info-Keeps HasParents filepath).run w p))
          ];
        })
        λ info. orphan-Keeps name _ filepath info

  -- Nor does the clone of a snapshot, when its future runs.
  pub clone_future-Keeps :
      (name : Text) (image : VmImageDb) → Keeps HasParents (clone_future s name image)
  unfolding clone_future
  clone_future-Keeps name image =
      then-Keeps HasParents (convert s name image.path) _
        (same-Keeps HasParents (convert s name image.path) (t.run_rows _))
        (bind-Keeps HasParents (get_info s (img_path s name)) _ (get_info-Keeps HasParents _)
          λ info. orphan-Keeps name _ _ info)

  -- Nor does a resize.
  pub resize-Keeps :
      (image : VmImageDb) (payload : VmImageResizePayload)
      → Keeps HasParents (resize s image payload)
  unfolding resize
  resize-Keeps image payload =
      then-Keeps HasParents (resize_file s image.path payload) _
        (same-Keeps HasParents _ (t.run_rows _))
        (bind-Keeps HasParents (get_info s image.path) _ (get_info-Keeps HasParents image.path)
          λ info. record {
            run = λ w p.
                elim (Result-cases
                  (s.update_pk image.name info.actual_size info.virtual_size w).0) [
                    | inl (x, h) ↦
                        rw (t.update_ok image.name _ _ x w h)
                          (HasParents-set_sizes image.name _ _ (t.rows w) p)
                    | inr (e, h) ↦ rw (t.update_err image.name _ _ e w h) p
                  ];
          })

  -- A snapshot of an image that is in the table leaves every image with its parent.
  pub create_snap-Keeps :
      (name : Text) (size : ℕ) (image : VmImageDb)
      → Keeps
          (λ rows. HasParents rows × (has_name image.name rows ≡ true))
          (create_snap s name size image)
  unfolding create_snap
  create_snap-Keeps name size image =
      let P : List VmImageDb → Type 0 =
        λ rows. HasParents rows × (has_name image.name rows ≡ true) in
      then-Keeps P (unused s name) _ (unused-Keeps P name) (
        then-Keeps P (snapshot s name image.path) _
          (same-Keeps P (snapshot s name image.path) (t.run_rows _))
          (then-Keeps P (resize_snapshot s name image.path size) _ (same-Keeps P _ (t.run_rows _)) (
            bind-Keeps P (get_info s (img_path s name)) _ (get_info-Keeps P _) λ info.
              store-Keeps P name _ _ (some image.name) info λ now rows p.
                (HasParents-cons _ rows p.1 p.0, has_name-cons _ image.name rows p.1))))
