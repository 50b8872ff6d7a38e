-- ===== src/Objects/Machines/Families.antt =====
-- The images of machines that are created.
use nanocl.Prelude.{
  Text, any, ◌==◌, Bool, true, false, not, some, List, ◌≡◌, refl, sym, subst, inl, inr,
}
use nanocl.Io.{Result, Result-cases}
use nanocl.Http.{HttpError}
use nanocl.Http.Effect.{io, pure}
use nanocl.Effect as Io_effect
use nanocl.System.Event.{Event, EventPartial, EventActor}
use nanocl.System.Action.{NativeEventAction}
use nanocl.Workload.{vm_actor}
use nanocl.Status.{ObjPsStatusPartial, try_from}
use nanocl.Statefile.Objects.{VmDisk}
use nanocl.Backend.{Backend}
use nanocl.SystemState.{emit_normal_native_action_sync, emit_event, normal_event}
use nanocl.Key.{gen_key}
use nanocl.VmImage.{VmImageDb, ImageStore, create_snap}
use nanocl.VmImage.Table.{IsTable}
use nanocl.VmImage.Family.{HasParents, has_name}
use nanocl.VmImage.Kept.{Keeps, bind-Keeps, then-Keeps, same-Keeps, create_snap-Keeps}
use nanocl.Objects.Specs.{
  Repositories, SpecDb, VmDb, try_from_vm_partial, try_to_vm_spec, with_vm_spec,
}
use nanocl.Objects.Machines.{
  VmObjCreateIn, create_vm, fn_create_vm, create_vm_rows, create_with, base_only, unless_there,
  size_of, snap_name, dotted, vm_exists, is_ok, store_vm,
}
use nanocl.Objects.Cargoes.{failing_unless, new_status}

-- The other tables, and the events, are apart from the table of images.
pub record LeavesImages {World Data : Type 0} (b : Backend World) (r : Repositories World Data)
    (s : ImageStore World) (t : IsTable s) : Type 0 where
  pub new_rows : (w : World) → t.rows (r.new_v4 w).1 ≡ t.rows w
  pub status_rows : (x : ObjPsStatusPartial) (w : World) → t.rows (r.create_status x w).1 ≡ t.rows w
  pub spec_rows : (x : SpecDb Data) (w : World) → t.rows (r.create_spec x w).1 ≡ t.rows w
  pub vm_rows : (x : VmDb) (w : World) → t.rows (r.create_vm x w).1 ≡ t.rows w
  pub store_rows : (x : EventPartial) (w : World) → t.rows (b.store_event x w).1 ≡ t.rows w
  pub send_rows : (x : Event) (w : World) → t.rows (b.send x w).1 ≡ t.rows w

module _ {World Data : Type 0} (b : Backend World) (r : Repositories World Data)
    (s : ImageStore World) (t : IsTable s) (a : LeavesImages b r s t) where
  module _ (P : List VmImageDb → Type 0) where
    failing_unless-Keeps : (test : Bool) (e : HttpError) → Keeps s t P (failing_unless b r test e)
    failing_unless-Keeps true e = same-Keeps s t P _ λ w. refl
    failing_unless-Keeps false e = same-Keeps s t P _ λ w. refl

    pure-Keeps : {A : Type 0} (x : A) → Keeps s t P (pure x)
    pure-Keeps x = same-Keeps s t P _ λ w. refl

    reading-Keeps : {A : Type 0} (f : World → Result A) → Keeps s t P (io (Io_effect.reading f))
    reading-Keeps f = same-Keeps s t P _ λ w. refl

    emit-Keeps :
        (actor : EventActor) (action : NativeEventAction)
        → Keeps s t P (io (emit_normal_native_action_sync b actor action))
    unfolding emit_normal_native_action_sync emit_event
    emit-Keeps actor action = record {
      run = λ w p.
          let x = normal_event b actor action in
          let stored = subst P (sym (a.store_rows x w)) p in
          elim (Result-cases (b.store_event x w).0) [
            | inl (ev, h) ↦ rw h (subst P (sym (a.send_rows ev (b.store_event x w).1)) stored)
            | inr (e, h) ↦ rw h stored
          ];
    }

    create_vm_rows-Keeps :
        (obj : VmObjCreateIn) (key : Text) (disk : VmDisk)
        → Keeps s t P (create_vm_rows b r s obj key disk)
    unfolding create_vm_rows try_from_vm_partial
    create_vm_rows-Keeps obj key disk =
        bind-Keeps s t P (io (r.create_status (new_status key))) _
          (same-Keeps s t P (io (r.create_status (new_status key)))
            (a.status_rows (new_status key)))
          λ status.
            bind-Keeps s t P (io (Io_effect.reading (λ _. try_from status))) _
              (reading-Keeps (λ _. try_from status))
              λ status'.
                bind-Keeps s t P
                  (io (try_from_vm_partial b r key obj.version (record (obj.spec) { disk = disk })))
                  _
                  (same-Keeps s t P
                    (io
                      (try_from_vm_partial b r key obj.version (record (obj.spec) { disk = disk })))
                    a.new_rows)
                  λ new_spec.
                    bind-Keeps s t P (io (r.create_spec new_spec)) _
                      (same-Keeps s t P (io (r.create_spec new_spec)) (a.spec_rows new_spec))
                      λ row.
                        bind-Keeps s t P (io (Io_effect.reading (λ _. try_to_vm_spec b r row))) _
                          (reading-Keeps (λ _. try_to_vm_spec b r row))
                          λ spec.
                            bind-Keeps s t P (store_vm b r s obj key spec.key) _
                              (same-Keeps s t P (store_vm b r s obj key spec.key)
                                (λ w. a.vm_rows _ w))
                              λ item. pure-Keeps (with_vm_spec item spec status')

  create_with-HasParents :
      (obj : VmObjCreateIn) (key : Text) (image : VmImageDb) (w : World)
      → HasParents (t.rows w)
      → has_name image.name (t.rows w) ≡ true
      → HasParents (t.rows (create_with b r s obj key image w).1)
  create_with-HasParents obj key image w p there =
      let P : List VmImageDb → Type 0 =
        λ rows. HasParents rows × (has_name image.name rows ≡ true) in
      let size = size_of b r s obj.spec.disk in
      let snap = create_snap s (snap_name b r s image key) size image in
      ((then-Keeps s t P (base_only b r s image obj.spec.disk) _ (failing_unless-Keeps P _ _) (
          bind-Keeps s t P snap _ (create_snap-Keeps s t _ size image) λ snapshot.
            create_vm_rows-Keeps P obj key
              (record { image = snapshot.name; size = some size }))).run
        w (p, there)).0

  fn_create_vm-HasParents :
      (obj : VmObjCreateIn) (w : World)
      → HasParents (t.rows w)
      → HasParents (t.rows (fn_create_vm b r s obj w).1)
  unfolding fn_create_vm
  fn_create_vm-HasParents obj w p =
      let key = gen_key obj.namespace obj.spec.name in
      let spec = obj.spec in
      (then-Keeps s t HasParents (unless_there b r s key spec.name obj.namespace) _
          (record {
            run = λ v q.
                (failing_unless-Keeps HasParents (not (is_ok (b.read_vm key v)))
                    (vm_exists spec.name obj.namespace)).run
                  v q;
          })
          (then-Keeps s t HasParents
            (failing_unless b r (not (any (λ c. c == b'.') spec.name)) dotted) _
            (failing_unless-Keeps HasParents _ _)
            (record {
              run = λ v q. elim (Result-cases (s.read_by_pk spec.disk.image v)) [
                | inr (e, h) ↦ rw h q
                | inl (image, h) ↦
                    rw h (create_with-HasParents obj key image v q (t.read_ok _ image v h))
              ];
            }))).run
        w p

  -- Creating a machine, with the snapshot that is made for it, leaves every image with its parent,
  -- whether the creation succeeds or not.
  pub create_vm-HasParents :
      (obj : VmObjCreateIn) (w : World)
      → HasParents (t.rows w)
      → HasParents (t.rows (create_vm b r s obj w).1)
  unfolding create_vm
  create_vm-HasParents obj w p =
      (bind-Keeps s t HasParents (fn_create_vm b r s obj) _
          (record { run = fn_create_vm-HasParents obj })
          λ item.
            then-Keeps s t HasParents
              (io (emit_normal_native_action_sync b (vm_actor item) NativeEventAction.create)) _
              (emit-Keeps HasParents (vm_actor item) NativeEventAction.create)
              (pure-Keeps HasParents item)).run
        w p
