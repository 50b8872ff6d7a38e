-- ===== src/Statefile/Objects.antt =====
-- What a Statefile defines (crates/nanocl_stubs/src/secret.rs, resource.rs, cargo_spec.rs,
-- vm_spec.rs and job.rs). A field that the source calls `data` is called `content`. JSON values,
-- Docker's configuration of a container and hash maps are types of other packages, a parameter of
-- the model.
pub mod Partial
use native.Mathlib.Decide.{ℕ_discrete}
use nanocl.Prelude.{ℕ, Text, Bool, Option, some, List}

pub record Foreign : Type 1 where
  -- `serde_json::Value`
  pub Value : Type 0
  pub value_discrete : Discrete Value
  -- `Value::String`
  pub string : Text → Value
  -- `f64`
  pub Float : Type 0
  -- `json!` of a number, `Value::Bool`
  pub number : Float → Value
  pub boolean : Bool → Value
  -- `Value::Object` of a map into which the pairs were inserted in this order
  pub object : List (Text × Value) → Value
  -- `as_object_mut` and `insert`; nothing if the value is no object
  pub insert : Text → Value → Value → Option Value
  -- `bollard_next::container::Config`
  pub Config : Type 0
  pub config_discrete : Discrete Config
  -- `HashMap<String, String>`
  pub Labels : Type 0
  pub labels_discrete : Discrete Labels

pub data ImagePullPolicy : Type 0 where
  never always if_not_present : ImagePullPolicy

ImagePullPolicy-discrete : Discrete ImagePullPolicy
ImagePullPolicy-discrete = hlevel

pub data ReplicationMode : Type 0 where
  auto unique unique_by_node : ReplicationMode
  -- the groups or names
  unique_by_node_groups unique_by_node_names : List Text → ReplicationMode
  -- the number of a `ReplicationStatic`
  static static_by_nodes : ℕ → ReplicationMode
  static_by_node_groups static_by_node_names : List Text → ℕ → ReplicationMode

pub ReplicationMode-discrete : Discrete ReplicationMode
ReplicationMode-discrete = hlevel ℕ_discrete

pub record VmDisk : Type 0 where
  pub image : Text
  pub size : Option ℕ

pub record VmHostConfig : Type 0 where
  pub cpu : ℕ
  pub memory : ℕ
  pub net_iface : Option Text
  pub link_net_iface : Option Text
  pub kvm : Option Bool
  pub dns : Option (List Text)
  pub runtime : Option Text
  pub runtime_network : Option Text
  pub host_tun : Option Bool

VmHostConfig-discrete : Discrete VmHostConfig
VmHostConfig-discrete = hlevel ℕ_discrete

module _ (F : Foreign) where
  open F use {Value, value_discrete, Config, config_discrete, Labels, labels_discrete}

  pub record SecretPartial : Type 0 where
    pub name : Text
    pub kind : Text
    pub immutable : Bool
    pub metadata : Option Value
    pub content : Value

  pub record Secret : Type 0 where
    pub name : Text
    pub created_at : ℕ
    pub updated_at : ℕ
    pub kind : Text
    pub immutable : Bool
    pub metadata : Option Value
    pub content : Value

  pub record SecretUpdate : Type 0 where
    pub metadata : Option Value
    pub content : Value

  pub record ResourcePartial : Type 0 where
    pub name : Text
    pub kind : Text
    pub content : Value
    pub metadata : Option Value

  pub record ResourceUpdate : Type 0 where
    pub content : Value
    pub metadata : Option Value

  -- The key of the specification is a text here.
  pub record ResourceSpec : Type 0 where
    pub key : Text
    pub version : Text
    pub created_at : ℕ
    pub resource_key : Text
    pub content : Value
    pub metadata : Option Value

  pub record Resource : Type 0 where
    pub kind : Text
    pub created_at : ℕ
    pub spec : ResourceSpec

  pub record CargoSpecPartial : Type 0 where
    pub name : Text
    pub metadata : Option Value
    pub init_container : Option Config
    pub secrets : Option (List Text)
    pub image_pull_secret : Option Text
    pub image_pull_policy : Option ImagePullPolicy
    pub container : Config
    pub replication : Option ReplicationMode

  pub record CargoSpec : Type 0 where
    pub key : Text
    pub cargo_key : Text
    pub version : Text
    pub created_at : ℕ
    pub name : Text
    pub metadata : Option Value
    pub init_container : Option Config
    pub secrets : Option (List Text)
    pub image_pull_secret : Option Text
    pub image_pull_policy : Option ImagePullPolicy
    pub container : Config
    pub replication : Option ReplicationMode

  pub record VmSpecPartial : Type 0 where
    pub name : Text
    pub metadata : Option Value
    pub hostname : Option Text
    pub user : Option Text
    pub password : Option Text
    pub ssh_key : Option Text
    pub disk : VmDisk
    pub mac_address : Option Text
    pub labels : Option Labels
    pub host_config : Option VmHostConfig

  pub record VmSpecUpdate : Type 0 where
    pub name : Option Text
    pub metadata : Option Value
    pub hostname : Option Text
    pub user : Option Text
    pub password : Option Text
    pub ssh_key : Option Text
    pub labels : Option Labels
    pub host_config : Option VmHostConfig

  pub record VmSpec : Type 0 where
    pub key : Text
    pub created_at : ℕ
    pub name : Text
    pub version : Text
    pub vm_key : Text
    pub metadata : Option Value
    pub hostname : Option Text
    pub password : Option Text
    pub ssh_key : Option Text
    pub user : Option Text
    pub disk : VmDisk
    pub mac_address : Option Text
    pub labels : Option Labels
    pub host_config : VmHostConfig

  pub record JobPartial : Type 0 where
    pub name : Text
    pub secrets : Option (List Text)
    pub metadata : Option Value
    pub schedule : Option Text
    pub ttl : Option ℕ
    pub image_pull_secret : Option Text
    pub image_pull_policy : Option ImagePullPolicy
    pub containers : List Config

  pub SecretPartial-discrete : Discrete SecretPartial
  SecretPartial-discrete = hlevel (value_discrete, ℕ_discrete)

  pub ResourcePartial-discrete : Discrete ResourcePartial
  ResourcePartial-discrete = hlevel (value_discrete, ℕ_discrete)

  pub CargoSpecPartial-discrete : Discrete CargoSpecPartial
  CargoSpecPartial-discrete = hlevel (
    value_discrete, config_discrete, ImagePullPolicy-discrete, ReplicationMode-discrete, ℕ_discrete,
  )

  pub VmSpecPartial-discrete : Discrete VmSpecPartial
  VmSpecPartial-discrete =
      hlevel (value_discrete, labels_discrete, VmHostConfig-discrete, ℕ_discrete)
