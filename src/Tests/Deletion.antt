-- ===== src/Tests/Deletion.antt =====
-- Objects that are deleted, and the crontab of a job.
use nanocl.Prelude.{
  Text, codes, true, retain, ◌=ₜ◌, none, some, [], ◌∷◌, ◌≡◌, refl, unlines, contains, starts_with,
  all, is_line, ◌++◌, ap,
}
use nanocl.Io.{Result, ok, err}
use nanocl.Process.{Process}
use nanocl.Workload.{cargo_actor}
use nanocl.Cron.{Crontab, format_cron_job_command, cron_rule, add_cron_rule, remove_cron_rule}
use nanocl.Cron.Rules.{IsKept, remove_cron_rule-add_cron_rule}
use nanocl.Container.Delete.{delete_cargo, docker_ignored}
use nanocl.Container.Delete.Destroyed.{Destroyed, delete_cargo_lem, stop_and_remove}
use nanocl.Container.Process.Reports.{add_calls}
use nanocl.Effect.{for_each}
use nanocl.Tests.Memory.{
  Memory, memory, memory-IsLawful, find, world, process, started, web, web_key, backup,
}
use nanocl.Process.{ContainerState}

-- the table and the file that is written are the whole world
abbrev Files : Type 0
Files = Text × Text

unfoldable table : Crontab Files
table = record {
  table = λ w. ok w.0;
  copy = λ w. (ok tt, (w.0, w.0));
  append = λ text w. (ok tt, (w.0, w.1 ++ text));
  write = λ text w. (ok tt, (w.0, text));
  crontab = λ w. (ok true, (w.1, w.1));
  host = codes "/run/nanocl.sock";
  version = codes "0.16.2";
}

text_of : Result Text → Text → Text
text_of (ok x) _ = x
text_of (err _) x = x

table-IsKept : IsKept table
unfolding table text_of
table-IsKept = record {
  written = λ w. w.1;
  copy_ok = λ text w h k. ap (λ r. text_of r text) h;
  append_ok = λ text w h. refl;
  write_ok = λ text w h. refl;
  crontab_ok = λ w h. refl;
}

abbrev entry : Text
entry = codes "0 0 * * * true"

abbrev before : Files
before = (unlines (entry ∷ []), [])

abbrev with_rule : Text
with_rule = unlines (entry ∷ []) ++ (cron_rule table backup (codes "@daily") ++ 10 ∷ [])

remove_cron_rule-add_cron_rule_example :
    table.table
      (remove_cron_rule table backup (add_cron_rule table backup (codes "@daily") before).1).1
    ≡ ok (unlines (entry ∷ []))
unfolding table cron_rule format_cron_job_command is_line all contains starts_with
remove_cron_rule-add_cron_rule_example =
    remove_cron_rule-add_cron_rule table backup (codes "@daily") before table-IsKept entry [] refl
      refl refl refl refl refl refl with_rule refl refl refl

abbrev up : ContainerState
up = record {
  restarting = none;
  running = some true;
  finished_at = none;
  exit_code = none;
  error = none;
}

abbrev web_a : Process
web_a = process (codes "web-a.global.c") web_key up

abbrev running : Memory
running = world (web_a ∷ []) started

delete_cargo_lem_example :
    Destroyed memory memory-IsLawful
      (cargo_actor web)
      (add_calls (stop_and_remove (web_a ∷ [])) (memory-IsLawful.see running))
      (delete_cargo memory web_key running).0
      (memory-IsLawful.see (delete_cargo memory web_key running).1)
unfolding memory find retain ◌=ₜ◌ for_each docker_ignored
delete_cargo_lem_example =
    delete_cargo_lem memory memory-IsLawful web_key running (web_a ∷ []) web refl refl

-- no table, and nothing to see of it
abbrev no_table : Crontab Memory
no_table = record {
  table = λ w. ok [];
  copy = λ w. (ok tt, w);
  append = λ text w. (ok tt, w);
  write = λ text w. (ok tt, w);
  crontab = λ w. (ok true, w);
  host = [];
  version = [];
}

abbrev step_a : Process
step_a = process (codes "backup-0.j") (codes "backup") up

abbrev busy : Memory
busy = world (step_a ∷ []) started
