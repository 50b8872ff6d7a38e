-- ===== src/Container/Job.antt =====
-- Starting a job: `create_instance`, `create_instances` and `start` of
-- bin/nanocld/src/utils/container/job.rs.
pub mod Sequential
use nanocl.Prelude.{
  ℕ, suc, Text, codes, show, Option, none, some, List, [], ◌∷◌, ◌++◌, unwrap_or, if◌then◌else◌,
}
use nanocl.Io.{ErrorKind, Result, ok, err, with_context}
use nanocl.System.Status.{ObjPsStatusKind}
use nanocl.System.Action.{NativeEventAction}
use nanocl.Process.{Process, ProcessKind}
use nanocl.Workload.{Job, Config, job_actor}
use nanocl.Statefile.Objects.{if_not_present}
use nanocl.Effect.{Effect, pure, reading, for_each, ◌>>=◌, ◌>>◌}
use nanocl.Backend.{Backend, start_container}
use nanocl.Status.Table.{update_actual_status}
use nanocl.SystemState.{emit_normal_native_action_sync}
use nanocl.Container.Delete.{docker_ignored}
use nanocl.Container.Create.{
  Builder, WaitItem, exited, wait_failed, insert, no_host_config, create_process,
}
use nanocl.Container.Cargo.{is_success}

-- The loop over the results of waiting: a code other than 0 is passed over.
unfoldable pub wait_job : List WaitItem → Result (Unit {0})
wait_job [] = ok tt
wait_job (wait_failed m ∷ items) = err (with_context ErrorKind.interrupted (codes "JobCreate") m)
wait_job (exited code error ∷ items) =
    let rest = wait_job items in if is_success code then ok tt else rest

-- the configuration of a container of the job
unfoldable pub job_config : Job → List Text → Text → Config → Config
job_config job env_secrets secret_dir container =
    let host_config = unwrap_or container.host_config no_host_config in
    record container {
      labels = some (insert (codes "io.nanocl.j") job.name (unwrap_or container.labels []));
      env = some (unwrap_or container.env [] ++ env_secrets);
      host_config = some (record host_config {
        network_mode = some (unwrap_or host_config.network_mode (codes "nanoclbr0"));
        binds = some (
            unwrap_or host_config.binds []
            ++ (secret_dir ++ codes "/:/opt/nanocl.io/secrets") ∷ []);
      });
    }

abbrev job_container_name : Job → ℕ → Text → Text
job_container_name job index short_id =
    job.name ++ (codes "-" ++ (show index ++ (codes "-" ++ (short_id ++ codes ".j"))))

module _ {World : Type 0} (b : Backend World) (u : Builder World) where
  unfoldable pub create_job_instance : Job → ℕ → Config → Effect World Process
  create_job_instance job index container = do
    env_secrets ← reading (u.load_env_secrets job.secrets)
    secret_dir ← u.create_tls_secrets job.name ProcessKind.job job.secrets
    short_id ← λ w. let (id, w') = u.generate_short_id w in (ok id, w')
    create_process b u ProcessKind.job (job_container_name job index short_id) job.name
        (job_config job env_secrets secret_dir container)

  -- the containers of a list, from a first index
  unfoldable pub create_job_instances : Job → ℕ → List Config → Effect World (List Process)
  create_job_instances job index [] = pure []
  create_job_instances job index (container ∷ containers) = do
    u.download (unwrap_or container.image []) job.image_pull_secret
        (unwrap_or job.image_pull_policy if_not_present)
    process ← create_job_instance job index container
    processes ← create_job_instances job (suc index) containers
    pure (process ∷ processes)

  abbrev pub created_if_none : Job → List Process → Effect World (List Process)
  created_if_none job [] = create_job_instances job 0 job.containers
  created_if_none job (p ∷ ps) = pure (p ∷ ps)

  -- a container is started, and awaited
  unfoldable pub run_process : Process → Effect World (Unit {0})
  run_process process =
      docker_ignored b (start_container process.key)
      >> (λ w. let (items, w') = u.wait_container process.key w in (wait_job items, w'))

  unfoldable pub start_job : Text → Effect World (Unit {0})
  start_job key = do
    job ← reading (b.read_job key)
    processes ← reading (b.read_processes job.name none)
    processes ← created_if_none job processes
    update_actual_status b key ObjPsStatusKind.start
    emit_normal_native_action_sync b (job_actor job) NativeEventAction.start
    for_each run_process processes
