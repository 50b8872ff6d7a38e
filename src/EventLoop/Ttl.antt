-- ===== src/EventLoop/Ttl.antt =====
-- What the end of a job's last container leads to.
use nanocl.Prelude.{
  Text, ℕ, zero, suc, all, any, Bool, true, false, Option, none, some, List, [], unwrap_or, ◌↔◌,
  inl, inr, length, ◌≡◌, ◌≢◌, refl, sym, ap, ◌∙◌, if◌then◌else◌, arith,
}
use nanocl.Io.{ok, Result-cases}
use nanocl.System.Status.{ObjPsStatusKind}
use nanocl.System.Action.{NativeEventAction}
use nanocl.System.Event.{EventActor}
use nanocl.Process.{Process}
use nanocl.Workload.{Job, job_actor}
use nanocl.Backend.{Backend}
use nanocl.Backend.Laws.{IsLawful, Columns}
use nanocl.Status.Table.{report, update_actual_status-then}
use nanocl.SystemState.{emit_normal_native_action_sync}
use nanocl.SystemState.Sent.{normal-Emits, Emits-rows}
use nanocl.Container.Count.Meaning.{
  has_end, count, is_running, is_success, is_failed, total_failures, count_status_lem,
  total_failures-eq-zero_iff,
}
use nanocl.EventLoop.{job_of, job_ttl, unless_done, count_job, end_job, finish_job, deletion}

-- what a job is reported as, by the number of failures
abbrev outcome : ℕ → ObjPsStatusKind
outcome zero = ObjPsStatusKind.finish
outcome (suc _) = ObjPsStatusKind.fail

ok_injective : {A : Type 0} {x y : A} → ok x ≡ ok y → x ≡ y
ok_injective h = cc

suc≢zero : {n : ℕ} → suc n ≢ 0
suc≢zero h = omega arith

outcome_lem :
    (n : ℕ) (f : Bool)
    → (n ≡ 0) ↔ (f ≡ false)
    → outcome n ≡ (if f then ObjPsStatusKind.fail else ObjPsStatusKind.finish)
outcome_lem zero f h = rw (h.0 refl)
outcome_lem (suc n) true h = refl
outcome_lem (suc n) false h = absurd (suc≢zero (h.1 refl))

module _ {World : Type 0} (b : Backend World) (l : IsLawful b) where
  finish_job_lem :
      (item : Job) (failed : ℕ) (w : World) (c : Columns)
      → (l.see w).rows item.name ≡ some c
      → (finish_job b item failed w).0 ≡ ok tt
      → (l.see (finish_job b item failed w).1).rows item.name ≡ some (report (outcome failed) c)
  unfolding finish_job
  finish_job_lem item zero w c h k =
      update_actual_status-then b l item.name ObjPsStatusKind.finish
        (emit_normal_native_action_sync b (job_actor item) NativeEventAction.finish) w c
        (λ v. Emits-rows _ _ _ (normal-Emits b l (job_actor item) NativeEventAction.finish v)) h k
  finish_job_lem item (suc _) w c h k =
      update_actual_status-then b l item.name ObjPsStatusKind.fail
        (emit_normal_native_action_sync b (job_actor item) NativeEventAction.fail) w c
        (λ v. Emits-rows _ _ _ (normal-Emits b l (job_actor item) NativeEventAction.fail v)) h k

  end_job_lem :
      (item : Job) (n failed success : ℕ) (w : World) (c : Columns) (d : Option (Text × ℕ))
      → (l.see w).rows item.name ≡ some c
      → (end_job b item (n, failed, success, zero) w).0 ≡ ok d
      → ((l.see (end_job b item (n, failed, success, zero) w).1).rows item.name
          ≡ some (report (outcome failed) c))
        × (d ≡ deletion item.ttl item.name)
  end_job_lem item n failed success w c d h k = elim (Result-cases (finish_job b item failed w).0) [
    | inr (e, u) ↦ cc (rw u at k)
    | inl (_, u) ↦ (rw u (finish_job_lem item failed w c h u), sym (ok_injective (rw u at k)))
  ]

  -- the event of a container of a job that is not done
  pub record IsLive (actor : EventActor) (item : Job) (ps : List Process) (w : World) : Type 0 where
    pub key : Text
    pub of_job : job_of (unwrap_or actor.attributes []) ≡ some key
    pub read : b.read_job key w ≡ ok item
    pub live :
        (item.status.actual ≢ ObjPsStatusKind.finish) × (item.status.actual ≢ ObjPsStatusKind.fail)
    pub processes : b.read_processes item.name none w ≡ ok ps
    pub ends : all has_end ps ≡ true

  unless_done_lem :
      (k : ObjPsStatusKind) (item : Job)
      → k ≢ ObjPsStatusKind.finish
      → k ≢ ObjPsStatusKind.fail
      → unless_done b k item ≡ count_job b item
  unless_done_lem ObjPsStatusKind.finish item n m = absurd (n refl)
  unless_done_lem ObjPsStatusKind.fail item n m = absurd (m refl)
  unless_done_lem _ item n m = refl

  module _ (actor : EventActor) (item : Job) (ps : List Process) (w : World)
      (h : IsLive actor item ps w) where
    job_ttl-end_job :
        job_ttl b actor w
        ≡ end_job b item (length ps, total_failures ps, count is_success ps, count is_running ps) w
    unfolding job_ttl count_job
    job_ttl-end_job = rw (
      h.of_job,
      h.read,
      unless_done_lem item.status.actual item h.live.0 h.live.1,
      h.processes,
      count_status_lem ps,
      h.ends,
    )

    -- When a container of a job dies while another one runs, nothing is changed.
    pub job_ttl-running : (n : ℕ) → count is_running ps ≡ suc n → job_ttl b actor w ≡ (ok none, w)
    job_ttl-running n k = job_ttl-end_job ∙ rw k

    -- When no other container runs, the job is reported as failed if a container of it failed, and
    -- else as finished, provided the handling succeeds; and it is to be deleted if it has a `ttl`.
    pub job_ttl-ended :
        (c : Columns) (d : Option (Text × ℕ))
        → count is_running ps ≡ 0
        → (l.see w).rows item.name ≡ some c
        → (job_ttl b actor w).0 ≡ ok d
        → ((l.see (job_ttl b actor w).1).rows item.name
            ≡ some (
                report
                  (if any is_failed ps then ObjPsStatusKind.fail else ObjPsStatusKind.finish)
                  c))
          × (d ≡ deletion item.ttl item.name)
    job_ttl-ended c d k r s =
        let run =
          λ (n : ℕ). end_job b item (length ps, total_failures ps, count is_success ps, n) w in
        let e = job_ttl-end_job ∙ ap run k in
        let t =
          end_job_lem item (length ps) (total_failures ps) (count is_success ps) w c d r
            (sym (ap (λ x. x.0) e) ∙ s) in
        (
          ap (λ x. (l.see x.1).rows item.name) e
              ∙ t.0
              ∙ ap (λ k. some (report k c))
                  (outcome_lem (total_failures ps) (any is_failed ps)
                    (total_failures-eq-zero_iff ps)),
          t.1,
        )
