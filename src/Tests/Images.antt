-- ===== src/Tests/Images.antt =====
-- A table of images that is a list.
use nanocl.Prelude.{
  ℕ, Text, codes, ◌=ₜ◌, =ₜ_refl, any, all, not, true, map, retain, none, List, [], ◌∷◌, ◌≡◌, refl,
  inl, inr, ap, sym, subst, arith, Bool-cases, if◌then◌else◌,
}
use nanocl.Io.{IoError, Result, Result-cases, ok, err, with_context, ErrorKind}
use nanocl.VmImage.{VmImageDb, ended, ImageStore}
use nanocl.VmImage.Table.{IsTable, is_parent, set_sizes}
use nanocl.VmImage.Family.{HasParents, has_name}
use nanocl.VmImage.History.{Operation, deleted, snapped, stored, after_all, after_all-HasParents}

abbrev pub no_image : IoError
no_image = with_context ErrorKind.not_found (codes "VmImage") (codes "not found")

unfoldable pub find_image : Text → List VmImageDb → Result VmImageDb
find_image name [] = err no_image
find_image name (r ∷ rows) =
    let rest = find_image name rows in if r.name =ₜ name then ok r else rest

found_of : VmImageDb → Result VmImageDb → VmImageDb
found_of d (ok r) = r
found_of d (err _) = d

ok_injective : {a b : VmImageDb} → ok a ≡ ok b → a ≡ b
unfolding found_of
ok_injective {a} {b} h = ap (found_of a) h

pub found-has_name :
    (name : Text) (rows : List VmImageDb) (r : VmImageDb)
    → find_image name rows ≡ ok r
    → has_name r.name rows ≡ true
unfolding find_image any
found-has_name name [] r h = cc
found-has_name name (x ∷ rows) r h = elim (Bool-cases (x.name =ₜ name)) [
  | inl k ↦
      subst (λ y. has_name y.name (x ∷ rows) ≡ true) (ok_injective (rw k at h))
        (rw (=ₜ_refl x.name) refl)
  | inr k ↦ ground (arith, found-has_name name rows r)
]

unfoldable pub update_found :
    Text → ℕ → ℕ → Result VmImageDb → List VmImageDb → Result VmImageDb × List VmImageDb
update_found name a v (ok r) w = (ok r, map (set_sizes name a v) w)
update_found name a v (err e) w = (err e, w)

unfoldable pub images : ImageStore (List VmImageDb)
unfolding find_image update_found
images = record {
  state_dir = codes "/var/lib/nanocl";
  hostname = codes "node";
  now = λ w. 0;
  read_by_pk = find_image;
  read_by_parent = λ name w. ok (retain (λ r. is_parent name r.parent) w);
  create_from = λ r w. (ok r, r ∷ w);
  del_by_pk = λ name w. (ok tt, retain (λ r. not (r.name =ₜ name)) w);
  update_pk = λ name a v w. update_found name a v (find_image name w) w;
  remove_file = λ path w. w;
  qemu_img = λ args w. (ended true [] [], w);
  parse_info = λ text. inr (record { format = codes "qcow2"; actual_size = 1; virtual_size = 2 });
}

rows_of : Result (List VmImageDb) → List VmImageDb
rows_of (ok rows) = rows
rows_of (err _) = []

pub rows_injective : {xs ys : List VmImageDb} → ok xs ≡ ok ys → xs ≡ ys
unfolding rows_of
rows_injective h = ap rows_of h

unfoldable pub images-IsTable : IsTable images
unfolding images find_image update_found any
images-IsTable = record {
  rows = λ w. w;
  read_ok = λ name r w h. found-has_name name w r h;
  children = λ name w rs h. sym (rows_injective h);
  create_ok = λ r x w h. refl;
  create_err = λ r e w h. cc;
  del_ok = λ name w h. refl;
  del_err = λ name e w h. cc;
  update_ok = λ name a v x w h. elim (Result-cases (find_image name w)) [
    | inl (r, k) ↦ rw k refl
    | inr (e, k) ↦ cc (rw k at h)
  ];
  update_err = λ name a v e w h. elim (Result-cases (find_image name w)) [
    | inl (r, k) ↦ cc (rw k at h)
    | inr (x, k) ↦ rw k refl
  ];
  file_rows = λ path w. refl;
  run_rows = λ args w. refl;
}

abbrev pub base : VmImageDb
base = record {
  name = codes "ubuntu";
  node_name = codes "node";
  created_at = 0;
  kind = codes "Base";
  path = codes "/tmp/ubuntu.img";
  format = codes "qcow2";
  size_actual = 1;
  size_virtual = 2;
  parent = none;
}

-- the deletion of the base image comes too late: it has a snapshot
abbrev history : List Operation
history =
    stored (codes "alpine") (codes "/tmp/alpine.img")
    ∷ snapped (codes "ubuntu") (codes "ubuntu.box") 20
    ∷ deleted (codes "ubuntu")
    ∷ deleted (codes "alpine")
    ∷ []

after_all-HasParents_example : HasParents (after_all images history (base ∷ []))
unfolding images images-IsTable find_image update_found all any
after_all-HasParents_example = after_all-HasParents images images-IsTable history (base ∷ []) refl
