-- ===== src/Cron.antt =====
-- The crontab of scheduled jobs: bin/nanocld/src/utils/cron.rs. The files and the command `crontab`
-- are a parameter.
pub mod Rules
use nanocl.Prelude.{ℕ, Text, codes, Bool, not, List, [], ◌∷◌, ◌++◌, retain, join, lines, contains}
use nanocl.Io.{Result, map_ok}
use nanocl.Workload.{Job}
use nanocl.Effect.{Effect, reading, ◌>>=◌, ◌>>◌}

pub record Crontab (World : Type 0) : Type 0 where
  -- reading `/var/spool/cron/crontabs/root`
  pub table : World → Result Text
  -- copying it to `/tmp/crontab`, appending to this file, and writing it
  pub copy : World → Result (Unit {0}) × World
  pub append : Text → World → Result (Unit {0}) × World
  pub write : Text → World → Result (Unit {0}) × World
  -- running `crontab /tmp/crontab`, and whether it exits with success
  pub crontab : World → Result Bool × World
  -- the first host of the configuration, without `unix://`
  pub host : Text
  -- `vars::VERSION`
  pub version : Text

module _ {World : Type 0} (t : Crontab World) where
  unfoldable pub format_cron_job_command : Job → Text
  format_cron_job_command job =
      codes "curl -X POST --unix "
      ++ (t.host
          ++ (codes " http://localhost/v"
              ++ (t.version ++ (codes "/processes/job/" ++ (job.name ++ codes "/start")))))

  unfoldable pub cron_rule : Job → Text → Text
  cron_rule job schedule = schedule ++ (codes " " ++ format_cron_job_command job)

  -- The exit status is not looked at.
  unfoldable pub exec_crontab : Effect World (Unit {0})
  exec_crontab w = let (r, w') = t.crontab w in (map_ok (λ _. tt) r, w')

  unfoldable pub add_cron_rule : Job → Text → Effect World (Unit {0})
  add_cron_rule job schedule =
      t.copy >> (t.append (cron_rule job schedule ++ 10 ∷ []) >> exec_crontab)

  -- the table without the lines of the job
  unfoldable pub without_rule : Job → Text → Text
  without_rule job content =
      join (10 ∷ [])
        (retain (λ line. not (contains (format_cron_job_command job) line)) (lines content))
      ++ 10 ∷ []

  unfoldable pub remove_cron_rule : Job → Effect World (Unit {0})
  remove_cron_rule job =
      reading t.table >>= λ content. t.write (without_rule job content) >> exec_crontab
