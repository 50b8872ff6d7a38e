-- ===== src/Tests/Jobs.antt =====
-- A job whose second container fails.
use nanocl.Prelude.{Text, codes, ◌=ₜ◌, none, some, List, [], ◌∷◌, retain, ◌≡◌, refl, if◌then◌else◌}
use nanocl.Process.{Process, ContainerState, natural}
use nanocl.System.Status
use nanocl.Status.Table.{update_actual_status, IsReported}
use nanocl.System.Status.{ObjPsStatusKind}
use nanocl.System.Action.{NativeEventAction}
use nanocl.Workload.{job_actor}
use nanocl.SystemState.{normal_event}
use nanocl.SystemState.Sent.{Emits}
use nanocl.Container.Process.Reports.{add_calls}
use nanocl.Container.Create.{Builder, WaitItem, exited, wait_failed}
use nanocl.Container.Create.Unseen.{IsQuiet}
use nanocl.Container.Job.{start_job}
use nanocl.Container.Job.Sequential.{Sequential, start_calls, announced, start_job-Sequential}
use nanocl.Tests.Memory.{Memory, memory, memory-IsLawful, find, world, process, started, backup}
use nanocl.Tests.Update.{fine, fine-IsQuiet}

abbrev waits : Text → List WaitItem
waits name =
    if name =ₜ codes "backup-1.j"
    then wait_failed (codes "exit 1") ∷ []
    else exited (natural 0) none ∷ []

abbrev awaited : Builder Memory
awaited = record fine { wait_container = λ name w. (waits name, w) }

awaited-IsQuiet : IsQuiet memory memory-IsLawful awaited
awaited-IsQuiet = record {
  download_see = fine-IsQuiet.download_see;
  secrets_see = fine-IsQuiet.secrets_see;
  id_see = fine-IsQuiet.id_see;
  create_see = fine-IsQuiet.create_see;
  create_from_see = fine-IsQuiet.create_from_see;
  wait_see = λ name w. refl;
}

abbrev ended : ContainerState
ended = record {
  restarting = none;
  running = none;
  finished_at = none;
  exit_code = none;
  error = none;
}

abbrev step : Text → Process
step name = process name (codes "backup") ended

abbrev steps : List Process
steps = step (codes "backup-0.j") ∷ step (codes "backup-1.j") ∷ step (codes "backup-2.j") ∷ []

abbrev idle : Memory
idle =
    let m = world steps started in
    record m { seen = record (m.seen) { rows = λ key. some started } }

abbrev begun : Memory
begun = announced memory memory-IsLawful awaited awaited-IsQuiet (codes "backup") idle backup steps

abbrev reported : Memory
reported = (update_actual_status memory (codes "backup") ObjPsStatusKind.start idle).1

start_job-Sequential_example :
    IsReported
      (codes "backup")
      ObjPsStatusKind.start
      (memory-IsLawful.see idle)
      (memory-IsLawful.see reported)
    × Emits
        (normal_event memory (job_actor backup) NativeEventAction.start)
        (memory-IsLawful.see reported)
        (memory-IsLawful.see begun)
    × ((qs : List Process) × Sequential steps qs (start_job memory awaited (codes "backup") idle).0
        × (memory-IsLawful.see (start_job memory awaited (codes "backup") idle).1
            ≡ add_calls (start_calls qs) (memory-IsLawful.see begun)))
unfolding memory find retain ◌=ₜ◌ update_actual_status Status.to_string
start_job-Sequential_example =
    start_job-Sequential memory memory-IsLawful awaited awaited-IsQuiet (codes "backup") idle backup
      steps steps refl refl refl refl
