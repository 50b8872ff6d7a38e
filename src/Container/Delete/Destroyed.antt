-- ===== src/Container/Delete/Destroyed.antt =====
-- What the deletion of an object leaves.
use nanocl.Prelude.{
  Text, false, true, Option, none, some, List, [], ◌∷◌, ◌++◌, map, append_assoc, append-nil, ◌≡◌,
  refl, sym, subst, ap, ◌∙◌, ◌⊎◌, inl, inr,
}
use nanocl.Io.{IoError, Result, ok, err, Result-cases}
use nanocl.System.Event.{EventActor, EventPartial}
use nanocl.System.Action.{NativeEventAction}
use nanocl.Process.{Process}
use nanocl.Workload.{Cargo, Job, cargo_actor, job_actor}
use nanocl.Effect.{Effect, for_each, run_all, ◌>>◌}
use nanocl.Backend.{
  Backend, Write, DockerCall, stop_container, remove_container, clear_cargo, clear_job,
  delete_process,
}
use nanocl.Backend.Laws.{Seen, IsLawful, add_call, add_sent}
use nanocl.SystemState.{emit_event, normal_event, emit_normal_native_action_sync}
use nanocl.SystemState.Sent.{emit_event-see, normal_ok}
use nanocl.Container.Process.{removal, delete_instance, delete_instances}
use nanocl.Container.Process.Reports.{add_calls}
use nanocl.Container.Delete.{docker_ignored, delete_cargo, delete_job, unschedule}
use nanocl.Cron.{Crontab, exec_crontab, remove_cron_rule}

abbrev pub stop_and_remove : List Process → List DockerCall
stop_and_remove [] = []
stop_and_remove (p ∷ ps) = stop_container p.key ∷ remove_container p.key false ∷ stop_and_remove ps

pub add_no_calls : (s : Seen) → s ≡ add_calls [] s
add_no_calls s = ap (λ calls. record s { calls = calls }) (sym (append-nil s.calls))

pub add_calls-add_calls :
    (cs ds : List DockerCall) (s : Seen) → add_calls ds (add_calls cs s) ≡ add_calls (cs ++ ds) s
add_calls-add_calls cs ds s = ap (λ calls. record s { calls = calls }) (append_assoc s.calls cs ds)

module _ {World : Type 0} (b : Backend World) (l : IsLawful b) where
  -- nothing that is seen is changed, whether the run succeeds or not
  pub record IsUnseen {A : Type 0} (m : Effect World A) : Type 0 where
    pub run : (w : World) → l.see (m w).1 ≡ l.see w

  abbrev stop_all : List Process → Effect World (Unit {0})
  stop_all = for_each (λ p.
      docker_ignored b (stop_container p.key) >> docker_ignored b (remove_container p.key false))

  stop_all-see :
      (ps : List Process) (w : World)
      → ((stop_all ps w).0 ≡ ok tt)
        × (l.see (stop_all ps w).1 ≡ add_calls (stop_and_remove ps) (l.see w))
  unfolding for_each docker_ignored
  stop_all-see [] w = (refl, add_no_calls (l.see w))
  stop_all-see (p ∷ ps) w =
      let stop = stop_container p.key in
      let remove = remove_container p.key false in
      let w' = (b.docker stop w).1 in
      let (done, seen) = stop_all-see ps (b.docker remove w').1 in
      let both = l.docker_see remove w' ∙ ap (add_call remove) (l.docker_see stop w) in
      (
        done,
        seen
            ∙ ap (add_calls (stop_and_remove ps))
                (both ∙ add_calls-add_calls (stop ∷ []) (remove ∷ []) (l.see w))
            ∙ add_calls-add_calls (stop ∷ remove ∷ []) (stop_and_remove ps) (l.see w),
      )

  delete_instance-see :
      (k : Text) (w : World)
      → l.see (delete_instance b k true w).1 ≡ add_call (remove_container k true) (l.see w)
  unfolding delete_instance
  delete_instance-see k w =
      let c = remove_container k true in
      elim (Result-cases (removal b k (b.docker c w).0)) [
        | inl (_, h) ↦ rw h (l.write_see (delete_process k) _ ∙ l.docker_see c w)
        | inr (e, h) ↦ rw h (l.docker_see c w)
      ]

  -- `run_all` goes on after an error: each of its calls is made
  pub run_all-calls :
      {A : Type 0} (f : A → Effect World (Unit {0})) (c : A → DockerCall)
      → ((x : A) (w : World) → l.see (f x w).1 ≡ add_call (c x) (l.see w))
      → (xs : List A) (w : World) → l.see (run_all f xs w).1 ≡ add_calls (map c xs) (l.see w)
  unfolding run_all
  run_all-calls f c one [] w = add_no_calls (l.see w)
  run_all-calls f c one (x ∷ xs) w =
      run_all-calls f c one xs (f x w).1
      ∙ ap (add_calls (map c xs)) (one x w)
      ∙ add_calls-add_calls (c x ∷ []) (map c xs) (l.see w)

  pub delete_instances-see :
      (ks : List Text) (w : World)
      → l.see (delete_instances b ks w).1
        ≡ add_calls (map (λ k. remove_container k true) ks) (l.see w)
  unfolding delete_instances
  delete_instances-see = run_all-calls _ (λ k. remove_container k true) delete_instance-see

  -- the event was sent, or the attempt to send it failed
  abbrev pub Tries : EventPartial → Seen → Seen → Type 0
  Tries p before after =
      (after ≡ add_sent p before)
      ⊎ ((w : World) × (e : IoError) × (l.see w ≡ before)
          × ((emit_event b p w).0 ≡ err e)
          × (l.see (emit_event b p w).1 ≡ after)
          × (after ≡ before))

  -- The event that the object is destroyed was sent, or storing or sending it failed, which is not
  -- reported; or the run failed and sent nothing.
  abbrev pub Destroyed : EventActor → Seen → Result (Unit {0}) → Seen → Type 0
  Destroyed actor before r after =
      ((r ≡ ok tt) × Tries (normal_event b actor NativeEventAction.destroy) before after)
      ⊎ ((e : IoError) × (r ≡ err e) × (after ≡ before))

  abbrev emit_destroy : EventActor → Effect World (Unit {0})
  emit_destroy actor = emit_normal_native_action_sync b actor NativeEventAction.destroy

  emit_destroy-Destroyed :
      (actor : EventActor) (w : World)
      → Destroyed actor (l.see w) (emit_destroy actor w).0 (l.see (emit_destroy actor w).1)
  unfolding emit_normal_native_action_sync
  emit_destroy-Destroyed actor w =
      let p = normal_event b actor NativeEventAction.destroy in
      inl (
        normal_ok b actor NativeEventAction.destroy w,
        elim (emit_event-see b l p w) [
          | inl (_, s) ↦ inl s
          | inr (e, k, s) ↦ inr (w, e, refl, k, refl, s)
        ],
      )

  then-Destroyed :
      (m n : Effect World (Unit {0})) (actor : EventActor)
      → IsUnseen m
      → ((w : World) → Destroyed actor (l.see w) (n w).0 (l.see (n w).1))
      → (w : World) → Destroyed actor (l.see w) ((m >> n) w).0 (l.see ((m >> n) w).1)
  then-Destroyed m n actor quiet h w = elim (Result-cases (m w).0) [
    | inr (e, k) ↦ inr (e, rw k refl, rw k (quiet.run w))
    | inl (_, k) ↦ rw k (
        subst (λ s. Destroyed actor s (n (m w).1).0 (l.see (n (m w).1).1)) (quiet.run w)
          (h (m w).1))
  ]

  write-IsUnseen : (x : Write) → IsUnseen (b.write x)
  write-IsUnseen x = record { run = l.write_see x }

  -- Deleting a cargo first asks Docker to stop and then to remove each container that the cargo
  -- has, in turn; then it sends the event that the cargo is destroyed and no other, or tries to and
  -- cannot, or it fails and sends none. No status is changed.
  pub delete_cargo_lem :
      (key : Text) (w : World) (ps : List Process) (cargo : Cargo)
      → b.read_processes key none w ≡ ok ps
      → b.read_cargo key (stop_all ps w).1 ≡ ok cargo
      → Destroyed
          (cargo_actor cargo)
          (add_calls (stop_and_remove ps) (l.see w))
          (delete_cargo b key w).0
          (l.see (delete_cargo b key w).1)
  unfolding delete_cargo
  delete_cargo_lem key w ps cargo h k =
      let (done, seen) = stop_all-see ps w in
      let rest = b.write (clear_cargo key) >> emit_destroy (cargo_actor cargo) in
      let w' = (stop_all ps w).1 in
      rw (h, done, k)
        (subst (λ s. Destroyed (cargo_actor cargo) s (rest w').0 (l.see (rest w').1)) seen
          (then-Destroyed (b.write (clear_cargo key)) (emit_destroy (cargo_actor cargo))
            (cargo_actor cargo) (write-IsUnseen _) (emit_destroy-Destroyed (cargo_actor cargo)) w'))

  module _ (t : Crontab World) where
    then-IsUnseen : (m n : Effect World (Unit {0})) → IsUnseen m → IsUnseen n → IsUnseen (m >> n)
    then-IsUnseen m n p q = record {
      run = λ w. elim (Result-cases (m w).0) [
        | inl (_, h) ↦ rw h (q.run (m w).1 ∙ p.run w)
        | inr (e, h) ↦ rw h (p.run w)
      ];
    }

    unschedule-IsUnseen :
        ((text : Text) → IsUnseen (t.write text))
        → IsUnseen (exec_crontab t)
        → (job : Job) (schedule : Option Text) → IsUnseen (unschedule b t job schedule)
    unfolding remove_cron_rule
    unschedule-IsUnseen quiet runs job none = record { run = λ w. refl }
    unschedule-IsUnseen quiet runs job (some _) = record {
      run = λ w. elim (Result-cases (t.table w)) [
        | inl (table, h) ↦ rw h ((then-IsUnseen (t.write _) (exec_crontab t) (quiet _) runs).run w)
        | inr (e, h) ↦ rw h refl
      ];
    }

    -- If writing and installing a crontab neither changes a status nor calls Docker nor sends an event, then
    -- deleting a job asks Docker to remove each container that the job has, also after a removal
    -- has failed; then it sends the event that the job is destroyed and no other, or it fails and
    -- sends none. No status is changed.
    pub delete_job_lem :
        ((text : Text) → IsUnseen (t.write text))
        → IsUnseen (exec_crontab t)
        → (key : Text) (w : World) (ps : List Process) (job : Job) → b.read_job key w ≡ ok job
        → b.read_processes key none w ≡ ok ps
        → Destroyed
            (job_actor job)
            (add_calls (map (λ k. remove_container k true) (map (λ p. p.key) ps)) (l.see w))
            (delete_job b t key w).0
            (l.see (delete_job b t key w).1)
    unfolding delete_job
    delete_job_lem quiet runs key w ps job h k =
        let actor = job_actor job in
        let ks = map (λ p. p.key) ps in
        let unscheduled = unschedule b t job job.schedule in
        let rest = b.write (clear_job job.name) >> (unscheduled >> emit_destroy actor) in
        let w' = (delete_instances b ks w).1 in
        elim (Result-cases (delete_instances b ks w).0) [
          | inr (e, j) ↦ inr (e, rw (h, k, j) refl, rw (h, k, j) (delete_instances-see ks w))
          | inl (_, j) ↦
              rw (h, k, j)
                (subst (λ s. Destroyed actor s (rest w').0 (l.see (rest w').1))
                  (delete_instances-see ks w)
                  (then-Destroyed (b.write (clear_job job.name)) _ actor (write-IsUnseen _)
                    (then-Destroyed unscheduled (emit_destroy actor) actor
                      (unschedule-IsUnseen quiet runs job job.schedule)
                      (emit_destroy-Destroyed actor))
                    w'))
        ]
