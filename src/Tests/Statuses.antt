-- ===== src/Tests/Statuses.antt =====
-- Reports of the daemon, and what is counted.
use nanocl.Prelude.{
  codes, ◌=ₜ◌, true, none, some, List, [], ◌∷◌, ◌≡◌, refl, retain, all, any, length, if◌then◌else◌,
}
use nanocl.System.Status
use nanocl.System.Status.{ObjPsStatusKind}
use nanocl.System.Event.{EventActor, string, process}
use nanocl.Process.{Process, ContainerState, natural}
use nanocl.Backend.Laws.{Seen, Columns}
use nanocl.Status.Table.{report, update_actual_status}
use nanocl.Container.Count.{count_status}
use nanocl.Container.Count.Meaning.{
  has_end, count, is_running, is_failed, is_success, is_finished, total_failures, count_status_lem,
}
use nanocl.SystemState.{emit_normal_native_action_sync, emit_action_sync}
use nanocl.EventLoop.{job_ttl, job_of, deletion, count_job, finish_job}
use nanocl.EventLoop.Ttl.{IsLive, job_ttl-ended}
use nanocl.Tests.Memory.{
  Memory, memory, memory-IsLawful, world, started, web, web_key, backup, machine, find,
}
use nanocl.Tests.Memory

abbrev see : Memory → Seen
see m = memory-IsLawful.see m

abbrev up : ContainerState
up = record {
  restarting = none;
  running = some true;
  finished_at = none;
  exit_code = none;
  error = none;
}

abbrev ended : ContainerState
ended = record {
  restarting = none;
  running = none;
  finished_at = some (codes "2024-11-01T10:00:00Z");
  exit_code = some (natural 1);
  error = some (codes "killed");
}

abbrev stopped : Columns
stopped = record started { wanted = codes "stop"; prev_wanted = codes "start" }

-- a daemon without rows
abbrev nothing : Memory
nothing = record (world [] started) { seen = record { rows = λ _. none; sent = []; calls = [] } }

-- the actor of an event of a container of the job
abbrev dead : EventActor
dead = record {
  key = some (codes "backup-0");
  kind = process;
  attributes = some ((codes "io.nanocl.j", string (codes "backup")) ∷ []);
}

abbrev job_world : List Process → Memory
job_world ps = world ps started

abbrev failed_one : List Process
failed_one = Memory.process (codes "backup-0") (codes "backup") ended ∷ []

abbrev running_one : List Process
running_one = Memory.process (codes "backup-1") (codes "backup") up ∷ failed_one

failed-IsLive : IsLive memory memory-IsLawful dead backup failed_one (job_world failed_one)
unfolding memory find retain ◌=ₜ◌ job_of has_end all
failed-IsLive = record {
  key = codes "backup";
  of_job = refl;
  read = refl;
  live = (λ h. cc, λ h. cc);
  processes = refl;
  ends = refl;
}

running-IsLive : IsLive memory memory-IsLawful dead backup running_one (job_world running_one)
unfolding memory find retain ◌=ₜ◌ job_of has_end all
running-IsLive = record {
  key = codes "backup";
  of_job = refl;
  read = refl;
  live = (λ h. cc, λ h. cc);
  processes = refl;
  ends = refl;
}

job_ttl-ended_example :
    ((see (job_ttl memory dead (job_world failed_one)).1).rows (codes "backup")
      ≡ some (
          report
            (if any is_failed failed_one then ObjPsStatusKind.fail else ObjPsStatusKind.finish)
            started))
    × (some (codes "backup", 60) ≡ deletion (some 60) (codes "backup"))
unfolding count is_running is_finished memory memory-IsLawful job_ttl find retain ◌=ₜ◌ job_of
    count_status count_job finish_job update_actual_status Status.to_string
    emit_normal_native_action_sync emit_action_sync
job_ttl-ended_example =
    job_ttl-ended memory memory-IsLawful dead backup failed_one (job_world failed_one) failed-IsLive
      started _ refl refl refl

-- no instance of the cargo runs
abbrev quiet : Memory
quiet = world (Memory.process (codes "web-1") web_key ended ∷ []) started

count_status_lem_example : count_status running_one ≡ (
    if all has_end running_one
    then some (
      length running_one,
      total_failures running_one,
      count is_success running_one,
      count is_running running_one,
    )
    else none)
count_status_lem_example = count_status_lem running_one
