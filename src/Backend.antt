-- ===== src/Backend.antt =====
-- What the daemon calls and does not implement: the Postgres tables behind the repositories, the
-- Docker API, the channel of the event loop and the clock. They are a parameter of the model, with
-- the laws that theorems need: which calls change the status table, and which send events.
pub mod Laws
pub mod Observed
use nanocl.Prelude.{ℕ, Text, Bool, Option, List}
use nanocl.Io.{IoError, Result, ok, err, with_context, ErrorKind}
use nanocl.System.Event.{Event, EventPartial}
use nanocl.Process.{Process}
use nanocl.Workload.{Cargo, Vm, Job}
use nanocl.Status.{ObjPsStatusDb, ObjPsStatusUpdate}

-- Calls of the Docker API that change a container.
pub data DockerCall : Type 0 where
  start_container stop_container restart_container : Text → DockerCall
  -- the signal
  kill_container : Text → Text → DockerCall
  -- whether the removal is forced
  remove_container : Text → Bool → DockerCall
  rename_container : Text → Text → DockerCall

-- `bollard_next::errors::Error`: an answer of the Docker server with its status code, or another
-- failure; each with the text that it prints.
pub data DockerError : Type 0 where
  response : ℕ → Text → DockerError
  failed : Text → DockerError

pub data DockerResult : Type 0 where
  done : DockerResult
  docker_error : DockerError → DockerResult

abbrev pub message : DockerError → Text
message (response _ m) = m
message (failed m) = m

-- `map_err(|err| err.map_err_context(|| context))?`
abbrev pub in_context : Text → DockerResult → Result (Unit {0})
in_context context done = ok tt
in_context context (docker_error e) = err (with_context ErrorKind.invalid_data context (message e))

-- Writes to the tables other than that of the statuses.
pub data Write : Type 0 where
  -- `JobDb::update_pk` with the time of the update
  touch_job : Text → ℕ → Write
  delete_process : Text → Write
  -- `CargoDb::clear_by_pk` and those of the other objects: the object with what belongs to it
  clear_cargo clear_job clear_vm : Text → Write
  -- `ProcessDb::update_pk` with the time, the name and the inspected data
  update_process : Text → ℕ → Text → Process → Write

pub record Backend (World : Type 0) : Type 0 where
  pub now : World → ℕ
  -- `state.inner.config.hostname`
  pub hostname : Text
  pub read_status : Text → World → Result ObjPsStatusDb
  pub update_status : Text → ObjPsStatusUpdate → World → Result (Unit {0}) × World
  pub read_cargo : Text → World → Result Cargo
  pub read_vm : Text → World → Result Vm
  pub read_job : Text → World → Result Job
  -- the cargoes whose specification names the secret
  pub cargoes_with_secret : Text → World → Result (List Cargo)
  -- the processes of a kind key, those with the label if one is given
  pub read_processes : Text → Option (Text × Text) → World → Result (List Process)
  pub write : Write → World → Result (Unit {0}) × World
  pub docker : DockerCall → World → DockerResult × World
  pub inspect_container : Text → World → Result Process
  -- `EventDb::create_try_from` and the row's `try_into`
  pub store_event : EventPartial → World → Result Event × World
  pub send : Event → World → Option Text × World
