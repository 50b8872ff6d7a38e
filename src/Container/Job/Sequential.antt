-- ===== src/Container/Job/Sequential.antt =====
-- The containers of a job run one after the other.
use nanocl.Prelude.{ℕ, suc, Text, none, List, [], ◌∷◌, map, ◌≡◌, refl, subst, ap, ◌∙◌, inl, inr}
use nanocl.Io.{IoError, Result, ok, err, Result-cases}
use nanocl.System.Status.{ObjPsStatusKind}
use nanocl.System.Action.{NativeEventAction}
use nanocl.Process.{Process, ProcessKind}
use nanocl.Workload.{Config, Job, job_actor}
use nanocl.Effect.{for_each}
use nanocl.Backend.{Backend, DockerCall, start_container}
use nanocl.Backend.Laws.{IsLawful, add_call}
use nanocl.Status.Table.{update_actual_status, update_actual_status_lem, IsReported}
use nanocl.SystemState.{normal_event, emit_normal_native_action_sync}
use nanocl.SystemState.Sent.{Emits, normal-Emits, normal_ok}
use nanocl.Container.Process.Reports.{add_calls}
use nanocl.Container.Delete.{docker_ignored}
use nanocl.Container.Delete.Destroyed.{IsUnseen, add_no_calls, add_calls-add_calls}
use nanocl.Container.Create.{Builder}
use nanocl.Container.Create.Unseen.{
  IsQuiet, bind-IsUnseen, then-IsUnseen, reading-IsUnseen, create_process-IsUnseen,
}
use nanocl.Container.Job.{
  created_if_none, create_job_instance, create_job_instances, job_container_name, job_config,
  run_process, start_job,
}

-- Of the processes of the first list those of the second were started: all, in their order, and the
-- run succeeded; or those up to one where the run failed.
pub data Sequential : List Process → List Process → Result (Unit {0}) → Type 0 where
  finished : Sequential [] [] (ok tt)
  next :
      (p : Process) (ps qs : List Process) (r : Result (Unit {0}))
      → Sequential ps qs r
      → Sequential (p ∷ ps) (p ∷ qs) r
  stopped : (p : Process) (ps : List Process) (e : IoError) → Sequential (p ∷ ps) (p ∷ []) (err e)

abbrev pub start_calls : List Process → List DockerCall
start_calls = map (λ p. start_container p.key)

module _ {World : Type 0} (b : Backend World) (l : IsLawful b) (u : Builder World)
    (q : IsQuiet b l u) where
  run_process-see :
      (p : Process) (w : World)
      → l.see (run_process b u p w).1 ≡ add_call (start_container p.key) (l.see w)
  unfolding run_process docker_ignored
  run_process-see p w = q.wait_see p.key _ ∙ l.docker_see _ w

  run_processes-Sequential :
      (ps : List Process) (w : World)
      → (qs : List Process) × Sequential ps qs (for_each (run_process b u) ps w).0
        × (l.see (for_each (run_process b u) ps w).1 ≡ add_calls (start_calls qs) (l.see w))
  unfolding for_each
  run_processes-Sequential [] w = ([], finished, add_no_calls (l.see w))
  run_processes-Sequential (p ∷ ps) w =
      let w' = (run_process b u p w).1 in
      let seen = run_process-see p w in
      elim (Result-cases (run_process b u p w).0) [
        | inr (e, h) ↦ (p ∷ [], rw h (stopped p ps e), rw h seen)
        | inl (_, h) ↦
            let (qs, s, calls) = run_processes-Sequential ps w' in
            (
              p ∷ qs,
              rw h (next p ps qs _ s),
              rw h (
                  calls
                  ∙ ap (add_calls (start_calls qs)) seen
                  ∙ add_calls-add_calls (start_container p.key ∷ []) (start_calls qs) (l.see w)),
            )
      ]

  module _ (key : Text) (w : World) (job : Job) (listed : List Process) where
    abbrev pub chosen : Result (List Process) × World
    chosen = created_if_none b u job listed w

    abbrev reporting : Result (Unit {0}) × World
    reporting = update_actual_status b key ObjPsStatusKind.start chosen.1

    -- where `start` is reported, and its event is sent
    abbrev pub announced : World
    announced =
        (emit_normal_native_action_sync b (job_actor job) NativeEventAction.start reporting.1).1

    create_job_instance-IsUnseen :
        (index : ℕ) (container : Config)
        → IsUnseen b l (create_job_instance b u job index container)
    unfolding create_job_instance
    create_job_instance-IsUnseen index container =
        bind-IsUnseen b l _ _ (reading-IsUnseen b l (u.load_env_secrets job.secrets)) λ env.
          bind-IsUnseen b l _ _ (record { run = q.secrets_see _ _ _ })
            λ dir.
              bind-IsUnseen b l (λ w. let (id, w') = u.generate_short_id w in (ok id, w')) _
                (record { run = q.id_see })
                λ id.
                  create_process-IsUnseen b l u q ProcessKind.job (job_container_name job index id)
                    job.name (job_config job env dir container)

    create_job_instances-IsUnseen :
        (index : ℕ) (containers : List Config)
        → IsUnseen b l (create_job_instances b u job index containers)
    unfolding create_job_instances
    create_job_instances-IsUnseen index [] = record { run = λ w. refl }
    create_job_instances-IsUnseen index (container ∷ containers) =
        then-IsUnseen b l _ _ (record { run = q.download_see _ _ _ })
          (bind-IsUnseen b l _ _ (create_job_instance-IsUnseen index container) λ p.
            bind-IsUnseen b l _ _ (create_job_instances-IsUnseen (suc index) containers)
              λ ps. record { run = λ w. refl })

    created_if_none-IsUnseen : (ps : List Process) → IsUnseen b l (created_if_none b u job ps)
    created_if_none-IsUnseen [] = create_job_instances-IsUnseen 0 job.containers
    created_if_none-IsUnseen (p ∷ ps) = record { run = λ w. refl }

    report-IsReported :
        reporting.0 ≡ ok tt → IsReported key ObjPsStatusKind.start (l.see w) (l.see reporting.1)
    report-IsReported h =
        subst (λ s. IsReported key ObjPsStatusKind.start s (l.see reporting.1))
          ((created_if_none-IsUnseen listed).run w)
          (update_actual_status_lem b l key ObjPsStatusKind.start chosen.1 h)

    -- If a job is there, and its containers are there or are created, and the status of the job can
    -- be reported, then `start` is reported and its event sent or lost before Docker is called, the
    -- creation of the containers included, but to create them;
    -- after that the containers are started in their order, each one only if the run of those before
    -- has not failed, and nothing else is done.
    pub start_job-Sequential :
        (ps : List Process)
        → b.read_job key w ≡ ok job
        → b.read_processes job.name none w ≡ ok listed
        → chosen.0 ≡ ok ps
        → reporting.0 ≡ ok tt
        → IsReported key ObjPsStatusKind.start (l.see w) (l.see reporting.1)
          × Emits
              (normal_event b (job_actor job) NativeEventAction.start)
              (l.see reporting.1)
              (l.see announced)
          × ((qs : List Process) × Sequential ps qs (start_job b u key w).0
              × (l.see (start_job b u key w).1 ≡ add_calls (start_calls qs) (l.see announced)))
    unfolding start_job
    start_job-Sequential ps found list made reported =
        let sent = normal_ok b (job_actor job) NativeEventAction.start reporting.1 in
        (
          report-IsReported reported,
          normal-Emits b l (job_actor job) NativeEventAction.start reporting.1,
          rw (found, list, made, reported, sent) (run_processes-Sequential ps announced),
        )
