-- ===== src/Objects/Delete.antt =====
-- What a request to delete an object leaves.
use nanocl.Prelude.{
  ℕ, zero, suc, Text, Bool, true, false, Option, none, List, all, unwrap_or, ◌≡◌, refl, ◌⊎◌, inl,
  inr, false≢true, arith,
}
use nanocl.Io.{IoError, ok, err, Result-cases}
use nanocl.Http.{HttpResult}
use nanocl.System.Status.{ObjPsStatusKind}
use nanocl.System.Action.{NativeEventAction}
use nanocl.System.Event.{EventActor}
use nanocl.SystemState.Sent.{normal_ok}
use nanocl.Process.{Process}
use nanocl.Workload.{Cargo, vm_actor, job_actor, cargo_actor}
use nanocl.Effect.{pure, ◌>>◌}
use nanocl.Backend.{Backend}
use nanocl.Backend.Laws.{IsLawful, Seen}
use nanocl.SystemState.{emit_normal_native_action_sync}
use nanocl.Container.Generic.Requests.{
  IsRequested, SendsAction, normal-SendsAction, request-IsRequested, requested,
}
use nanocl.Container.Count.Meaning.{has_end, count, is_running, count_status_lem}
use nanocl.Objects.{
  wish_destroy, fn_del_cargo, del_cargo, fn_del_vm, del_vm, fn_del_job, del_job, refusal,
  del_unless_running,
}

module _ {World : Type 0} (b : Backend World) (l : IsLawful b) (key : Text) (w : World) where
  abbrev Destroying : Seen → Type 0
  Destroying =
      IsRequested b key ObjPsStatusKind.destroy ObjPsStatusKind.destroying
        NativeEventAction.destroying (l.see w)

  wish_destroy_lem :
      (n : World → Seen)
      → ((v : World) → SendsAction b NativeEventAction.destroying (l.see v) (n v))
      → (((wish_destroy b key w).0 ≡ ok tt) × Destroying (n (wish_destroy b key w).1))
        ⊎ ((e : IoError) × ((wish_destroy b key w).0 ≡ err e)
            × (l.see (wish_destroy b key w).1 ≡ l.see w))
  unfolding wish_destroy
  wish_destroy_lem n sends = elim (Result-cases (b.read_status key w)) [
    | inr (e, h) ↦ inr (e, rw h, rw h)
    | inl (r, h) ↦
        let u =
          requested b l key ObjPsStatusKind.destroy ObjPsStatusKind.destroying
            NativeEventAction.destroying w r in
        elim (Result-cases (b.update_status key u w).0) [
          | inr (e, k) ↦ inr (e, rw (h, k), rw h (l.update_err key u w e k))
          | inl (_, k) ↦ inl (
            rw (h, k),
            rw h (
                request-IsRequested b l key ObjPsStatusKind.destroy ObjPsStatusKind.destroying
                  NativeEventAction.destroying w r _ h k (sends (b.update_status key u w).1)),
          )
        ]
  ]

  module _ (actor : EventActor) where
    emit_destroying : World → Seen
    emit_destroying v =
        l.see (emit_normal_native_action_sync b actor NativeEventAction.destroying v).1

    sends_destroying :
        (v : World) → SendsAction b NativeEventAction.destroying (l.see v) (emit_destroying v)
    unfolding emit_destroying
    sends_destroying v = normal-SendsAction b l actor NativeEventAction.destroying v (l.see v) refl

  -- Deleting a virtual machine asks for its destruction, as a start request asks for a start; or it
  -- fails and changes nothing.
  pub del_vm_lem :
      Destroying (l.see (del_vm b key w).1)
      ⊎ ((e : IoError) × ((del_vm b key w).0 ≡ err e) × (l.see (del_vm b key w).1 ≡ l.see w))
  unfolding del_vm fn_del_vm emit_destroying
  del_vm_lem = elim (Result-cases (b.read_vm key w)) [
    | inr (e, h) ↦ inr (e, rw h, rw h)
    | inl (item, h) ↦
        elim (wish_destroy_lem (emit_destroying (vm_actor item))
          (sends_destroying (vm_actor item))) [
            | inr (e, k, s) ↦ inr (e, rw (h, k), rw (h, k) s)
            | inl (k, d) ↦ inl (
                rw
                  (
                    h,
                    k,
                    normal_ok b (vm_actor item) NativeEventAction.destroying
                        (wish_destroy b key w).1,
                  )
                  d)
          ]
  ]

  -- So does deleting a job.
  pub del_job_lem :
      Destroying (l.see (del_job b key w).1)
      ⊎ ((e : IoError) × ((del_job b key w).0 ≡ err e) × (l.see (del_job b key w).1 ≡ l.see w))
  unfolding del_job fn_del_job emit_destroying
  del_job_lem = elim (Result-cases (b.read_job key w)) [
    | inr (e, h) ↦ inr (e, rw h, rw h)
    | inl (item, h) ↦
        elim (wish_destroy_lem (emit_destroying (job_actor item))
          (sends_destroying (job_actor item))) [
            | inr (e, k, s) ↦ inr (e, rw (h, k), rw (h, k) s)
            | inl (k, d) ↦ inl (
                rw
                  (
                    h,
                    k,
                    normal_ok b (job_actor item) NativeEventAction.destroying
                        (wish_destroy b key w).1,
                  )
                  d)
          ]
  ]

  deleted :
      (f : Bool) (n : ℕ)
      → (f ≡ true) ⊎ (n ≡ 0)
      → (item : Cargo)
      → del_unless_running b key item f n ≡ (wish_destroy b key >> pure (HttpResult.ok item))
  deleted f zero _ item = refl
  deleted true (suc n) _ item = refl
  deleted false (suc n) (inl h) item = absurd (false≢true h)
  deleted false (suc n) (inr h) item = absurd (omega arith)

  module _ (force : Option Bool) (item : Cargo) (ps : List Process)
      (found : b.read_cargo key w ≡ ok item)
      (processes : b.read_processes item.cargo_key none w ≡ ok ps)
      (ends : all has_end ps ≡ true) where
    -- Deleting a cargo of which an instance runs is refused, and changes nothing, unless it is forced.
    pub del_cargo_refused :
        (n : ℕ)
        → count is_running ps ≡ suc n
        → unwrap_or force false ≡ false
        → del_cargo b key force w ≡ (ok (HttpResult.err (refusal b)), w)
    unfolding del_cargo fn_del_cargo
    del_cargo_refused n r f = rw (found, processes, count_status_lem ps, ends, r, f)

    -- If it is forced or no instance runs, then it asks for the cargo's destruction, or it fails and
    -- changes nothing.
    pub del_cargo_lem :
        (unwrap_or force false ≡ true) ⊎ (count is_running ps ≡ 0)
        → Destroying (l.see (del_cargo b key force w).1)
          ⊎ ((e : IoError) × ((del_cargo b key force w).0 ≡ err e)
              × (l.see (del_cargo b key force w).1 ≡ l.see w))
    unfolding del_cargo fn_del_cargo emit_destroying
    del_cargo_lem allowed =
        let d = deleted (unwrap_or force false) (count is_running ps) allowed item in
        elim (wish_destroy_lem (emit_destroying (cargo_actor item))
          (sends_destroying (cargo_actor item))) [
            | inr (e, k, s) ↦ inr (
              e,
              rw (found, processes, count_status_lem ps, ends, d, k),
              rw (found, processes, count_status_lem ps, ends, d, k) s,
            )
            | inl (k, x) ↦ inl (
                rw
                  (
                    found,
                    processes,
                    count_status_lem ps,
                    ends,
                    d,
                    k,
                    normal_ok b (cargo_actor item) NativeEventAction.destroying
                        (wish_destroy b key w).1,
                  )
                  x)
          ]
