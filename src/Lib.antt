-- ===== src/Lib.antt =====
-- Nanocl: the part of the container orchestrator that keeps what is wanted of an object and what
-- is.
--
-- An object (a cargo, a virtual machine, a job) has a row of statuses: what is wanted and what is
-- actual, each with the value before. A request of the HTTP interface changes the row and sends an
-- event to the event loop (Container.Generic, Objects). The loop turns the event into a task,
-- under a key of the object, and hands it to the task manager (EventLoop, TaskManager). A task
-- calls Docker and reports the actual status (Container.Process). Docker's own events are reported
-- too (DockerEvent). Subscribers get each event (Emitter).
--
-- - Prelude, Io, Http: texts as code points, numbers in decimal, errors of crates/nanocl_error.
-- - System, Process, Workload: the data of crates/nanocl_stubs/src/system.rs, process.rs,
--   cargo.rs, vm.rs and job.rs, with their text forms. Of a cargo, a machine and a job only the
--   fields that the modelled code reads are there.
-- - Status: the rows of bin/nanocld/src/models/object_process_status.rs and update_actual_status
--   of bin/nanocld/src/repositories/object_process_status.rs.
-- - SystemState: the emit functions of bin/nanocld/src/system/system_state.rs.
-- - Container: bin/nanocld/src/utils/container/generic.rs and process.rs.
-- - DockerEvent, EventLoop: bin/nanocld/src/system/docker_event.rs and event.rs.
-- - TaskManager: bin/nanocld/src/tasks/task_manager.rs, as a step relation of the loop and of the
--   futures that it spawns; the steps are what runs between two awaits.
-- - Objects: deleting objects, bin/nanocld/src/objects. Objects.Specs: the rows and specifications,
--   repositories/spec.rs, cargo.rs and vm.rs there. Objects.Cargoes, Objects.Machines: creation,
--   put and patch.
-- - Container.Create, Container.Cargo, Container.Delete: how the containers of a cargo are
--   created, started, updated and deleted, bin/nanocld/src/utils/container/cargo.rs, and those of
--   a job deleted, job.rs; Container.Job how a job is started. Container.Image: image.rs.
--   Container.Secrets: bin/nanocld/src/utils/secret.rs. Container.Machine: the containers of
--   machines, vm.rs.
-- - Cron: bin/nanocld/src/utils/cron.rs.
-- - Statefile: what the command line does with a file of objects,
--   bin/nanocl/src/commands/state.rs, with exec_rm of generic.rs there and wait_process_state of
--   bin/nanocl/src/utils/process.rs. Statefile.Objects has the data (crates/nanocl_stubs), Apply,
--   Remove, Parse and Exec the operations.
-- - Errors: crates/nanocl_error; Http and Http.Effect: computations that fail with its answers.
-- - VmImage: bin/nanocld/src/utils/vm_image.rs. VmImage.Table has what is relied on of the table.
-- - Sync: bin/nanocld/src/utils/system.rs.
-- - Resources: bin/nanocld/src/objects/resource.rs, repositories/resource.rs and resource_kind.rs
--   there, and the client of controllers, utils/ctrl_client.rs.
-- - Env: how the patch of a cargo merges its environment, bin/nanocld/src/objects/cargo.rs.
-- - Key: bin/nanocld/src/utils/key.rs.
-- - Emitter: bin/nanocld/src/models/raw_emitter.rs.
-- - Proxy: bin/ncproxy/src/utils/rule.rs, but for the TLS configuration.
-- - Dns: bin/ncdns/src/utils.rs and set_dns of dnsmasq.rs, on the contents of the files.
-- - Versioning: crates/nanocl_utils/src/ntex/middlewares/versioning.rs and versioning.rs.
--
-- Effect has computations that may fail and keep what they changed. What they call outside of this
-- code is a parameter, the record Backend: the tables of Postgres, Docker, the event channel and
-- the clock. Backend.Laws states what is relied on: an update sets the columns it names in the row
-- of its key or fails and changes nothing, a write to another table changes no status, and a sent
-- event is the one that was stored. Tests.Memory is an instance.
--
-- The command line calls the daemon: the record Client of Statefile has those calls,
-- Statefile.Logged that each request is written down; Tests.Client is an instance. Container.Create has the record Builder for
-- templates, Docker's creation of a container, and the secrets and the download of an image, which
-- Container.Secrets and Container.Image describe apart. Sync has the record Node for Docker and the
-- tables at the start, Resources the record Registry for its tables and the controllers.
--
-- An emission in the background is taken to run where it is spawned, concurrent removals run in
-- the order of their list, and a panic ends a computation as an error does. Logging is left out. A
-- future that is spawned to run later is the result of its computation. Not modelled are the SQL
-- of the repositories, the HTTP services, the rest of the proxy controller, the VPN kit and the
-- other commands; of the Statefile command the arguments, the prompt, the messages and the logs.
-- Statefiles may include each other in a circle, and then reading them does not end:
-- Statefile.Parse recurses on fuel, and Statefile.Order shows that a depth of includes is enough.
-- All other loops are recursions on lists.
pub mod Prelude
pub mod Io
pub mod Http
pub mod System
pub mod Process
pub mod Emitter
pub mod Versioning
pub mod Key
pub mod Workload
pub mod Effect
pub mod Errors
pub mod VmImage
pub mod Backend
pub mod SystemState
pub mod Statefile
pub mod Status
pub mod Cron
pub mod Container
pub mod DockerEvent
pub mod TaskManager
pub mod EventLoop
pub mod Objects
pub mod Sync
pub mod Resources
pub mod Proxy
pub mod Dns
pub mod Env
mod Tests
