-- ===== src/Workload.antt =====
-- The objects that run as containers (crates/nanocl_stubs/src/{cargo,vm,job}.rs), as far as the
-- daemon's event handling reads them, and the actors that stand for them in events.
use nanocl.Prelude.{ℕ, Text, codes, Bool, Option, some, unwrap_or, List, [], ◌∷◌}
use nanocl.Statefile.Objects.{ImagePullPolicy, ReplicationMode, VmDisk, VmHostConfig}
use nanocl.System.Status.{ObjPsStatusKind}
use nanocl.System.Event.{EventActor, EventActorKind, Value, string, not_string}

pub record ObjPsStatus : Type 0 where
  pub updated_at : ℕ
  pub wanted : ObjPsStatusKind
  pub prev_wanted : ObjPsStatusKind
  pub actual : ObjPsStatusKind
  pub prev_actual : ObjPsStatusKind

-- Docker's configuration of a container, with the fields that the daemon reads or sets; labels are
-- pairs.
pub record HostConfig : Type 0 where
  pub binds : Option (List Text)
  pub network_mode : Option Text
  -- the name and the maximum of retries
  pub restart_policy : Option (Text × Option ℕ)
  pub auto_remove : Option Bool
  -- the path of a device on the host and in the container, with what is allowed
  pub devices : Option (List (Text × Text × Text))
  pub cap_add : Option (List Text)

pub record Config : Type 0 where
  pub image : Option Text
  pub hostname : Option Text
  pub env : Option (List Text)
  pub labels : Option (List (Text × Text))
  pub attach_stderr : Option Bool
  pub attach_stdout : Option Bool
  pub attach_stdin : Option Bool
  pub open_stdin : Option Bool
  pub tty : Option Bool
  pub cmd : Option (List Text)
  pub host_config : Option HostConfig

-- with the fields of its specification
pub record Cargo : Type 0 where
  pub cargo_key : Text
  pub name : Text
  pub namespace_name : Text
  pub version : Text
  pub metadata : Option Value
  pub container : Config
  pub init_container : Option Config
  pub secrets : Option (List Text)
  pub image_pull_secret : Option Text
  pub image_pull_policy : Option ImagePullPolicy
  pub replication : Option ReplicationMode
  pub status : ObjPsStatus

pub record Vm : Type 0 where
  pub vm_key : Text
  pub name : Text
  pub namespace_name : Text
  pub version : Text
  pub metadata : Option Value
  pub hostname : Option Text
  pub user : Option Text
  pub password : Option Text
  pub ssh_key : Option Text
  pub disk : VmDisk
  pub host_config : VmHostConfig
  pub status : ObjPsStatus

pub record Job : Type 0 where
  pub name : Text
  pub metadata : Option Value
  pub secrets : Option (List Text)
  pub schedule : Option Text
  pub ttl : Option ℕ
  pub image_pull_secret : Option Text
  pub image_pull_policy : Option ImagePullPolicy
  pub containers : List Config
  pub status : ObjPsStatus

unfoldable pub cargo_actor : Cargo → EventActor
cargo_actor cargo = record {
  key = some cargo.cargo_key;
  kind = EventActorKind.cargo;
  attributes = some (
      (codes "Name", string cargo.name)
      ∷ (codes "Namespace", string cargo.namespace_name)
      ∷ (codes "Version", string cargo.version)
      ∷ (codes "Metadata", unwrap_or cargo.metadata not_string)
      ∷ []);
}

unfoldable pub vm_actor : Vm → EventActor
vm_actor vm = record {
  key = some vm.vm_key;
  kind = EventActorKind.vm;
  attributes = some (
      (codes "Name", string vm.name)
      ∷ (codes "Namespace", string vm.namespace_name)
      ∷ (codes "Version", string vm.version)
      ∷ (codes "Metadata", unwrap_or vm.metadata not_string)
      ∷ []);
}

unfoldable pub job_actor : Job → EventActor
job_actor job = record {
  key = some job.name;
  kind = EventActorKind.job;
  attributes = some (
      (codes "Name", string job.name) ∷ (codes "Metadata", unwrap_or job.metadata not_string) ∷ []);
}
