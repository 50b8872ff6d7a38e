-- ===== src/Objects/Specs.antt =====
-- Specifications in their table: the conversions of bin/nanocld/src/repositories/spec.rs, and
-- `with_spec` and `update_from_spec` of cargo.rs and vm.rs there. The tables, the form in which a
-- specification is stored, and what letters are, are a parameter.
use native.Mathlib.Decide.{ℕ_discrete}
use nanocl.Prelude.{unwrap_or, ℕ, Text, codes, Bool, Option, none, some}
use nanocl.Io.{Result, ok, err}
use nanocl.Io as Io
use nanocl.System.Event.{Value, string, not_string}
use nanocl.Statefile.Objects.{
  Foreign, CargoSpecPartial, CargoSpec, VmSpecPartial, VmSpec, VmHostConfig,
}
use nanocl.Workload.{Cargo, Config, ObjPsStatus, Vm}
use nanocl.Status.{ObjPsStatusDb, ObjPsStatusPartial}
use nanocl.Effect.{Effect, pure, reading, ◌>>=◌, ◌>>◌}
use nanocl.Backend.{Backend}

pub Value-discrete : Discrete Value
Value-discrete = hlevel ℕ_discrete

pub Config-discrete : Discrete Config
Config-discrete = hlevel ℕ_discrete

abbrev insert_value : Text → Value → Value → Option Value
insert_value k v not_string = some not_string
insert_value k v (string _) = none

-- the types of the libraries, as far as the daemon looks into them
abbrev pub daemon : Foreign
daemon = record {
  Value = Value;
  value_discrete = Value-discrete;
  string = string;
  Float = ℕ;
  number = λ n. not_string;
  boolean = λ b. not_string;
  object = λ m. not_string;
  insert = insert_value;
  Config = Config;
  config_discrete = Config-discrete;
  Labels = ℕ;
  labels_discrete = ℕ_discrete;
}

-- a row, with the stored form of a specification
pub record SpecDb (Data : Type 0) : Type 0 where
  pub key : Text
  pub created_at : ℕ
  pub kind_name : Text
  pub kind_key : Text
  pub version : Text
  pub content : Data
  pub metadata : Option Value

pub record CargoDb : Type 0 where
  pub key : Text
  pub created_at : ℕ
  pub name : Text
  pub spec_key : Text
  pub status_key : Text
  pub namespace_name : Text

pub record VmDb : Type 0 where
  pub key : Text
  pub name : Text
  pub created_at : ℕ
  pub namespace_name : Text
  pub status_key : Text
  pub spec_key : Text

pub record Repositories (World Data : Type 0) : Type 0 where
  -- `char::is_alphanumeric`
  pub is_alphanumeric : ℕ → Bool
  pub new_v4 : World → Text × World
  -- `serde_json`
  pub cargo_to_value : CargoSpecPartial daemon → Result Data
  pub cargo_from_value : Data → Result (CargoSpecPartial daemon)
  pub vm_to_value : VmSpecPartial daemon → Result Data
  pub vm_from_value : Data → Result (VmSpecPartial daemon)
  -- `create_from` of the tables
  pub create_spec : SpecDb Data → World → Result (SpecDb Data) × World
  pub create_status : ObjPsStatusPartial → World → Result ObjPsStatusDb × World
  pub create_cargo : CargoDb → World → Result CargoDb × World
  pub create_vm : VmDb → World → Result VmDb × World
  -- `update_pk` with a name and the key of a specification
  pub update_cargo : Text → Text → Text → World → Result (Unit {0}) × World
  pub update_vm : Text → Text → Text → World → Result (Unit {0}) × World
  -- `SpecDb::read_by_pk` of the specification that an object has
  pub read_spec_of : Text → World → Result (SpecDb Data)

-- `VmHostConfig::default()`
abbrev pub default_host_config : VmHostConfig
default_host_config = record {
  cpu = 1;
  memory = 512;
  net_iface = none;
  link_net_iface = none;
  kvm = none;
  dns = none;
  runtime = none;
  runtime_network = none;
  host_tun = none;
}

-- the object with a specification
unfoldable pub with_cargo_spec : CargoDb → CargoSpec daemon → ObjPsStatus → Cargo
with_cargo_spec item spec status = record {
  cargo_key = spec.cargo_key;
  name = spec.name;
  namespace_name = item.namespace_name;
  version = spec.version;
  metadata = spec.metadata;
  container = spec.container;
  init_container = spec.init_container;
  secrets = spec.secrets;
  image_pull_secret = spec.image_pull_secret;
  image_pull_policy = spec.image_pull_policy;
  replication = spec.replication;
  status = status;
}

abbrev cargo_spec_of : {Data : Type 0} → SpecDb Data → CargoSpecPartial daemon → CargoSpec daemon
cargo_spec_of row p = record {
  key = row.key;
  cargo_key = row.kind_key;
  version = row.version;
  created_at = row.created_at;
  name = p.name;
  metadata = row.metadata;
  init_container = p.init_container;
  secrets = p.secrets;
  container = p.container;
  replication = p.replication;
  image_pull_secret = p.image_pull_secret;
  image_pull_policy = p.image_pull_policy;
}

-- `cargo.spec = spec`
abbrev pub set_cargo_spec : Cargo → CargoSpec daemon → Cargo
set_cargo_spec cargo spec = record {
  cargo_key = spec.cargo_key;
  name = spec.name;
  namespace_name = cargo.namespace_name;
  version = spec.version;
  metadata = spec.metadata;
  container = spec.container;
  init_container = spec.init_container;
  secrets = spec.secrets;
  image_pull_secret = spec.image_pull_secret;
  image_pull_policy = spec.image_pull_policy;
  replication = spec.replication;
  status = cargo.status;
}

module _ {World Data : Type 0} (b : Backend World) (r : Repositories World Data) where
  abbrev pub spec_row :
      Text → Text → Text → Option Value → Result Data → World → Result (SpecDb Data) × World
  spec_row kind_name key version metadata content w =
      let (uuid, w') = r.new_v4 w in
      (
        Io.map_ok
            (λ content. record {
              key = uuid;
              created_at = b.now w;
              kind_name = kind_name;
              kind_key = key;
              version = version;
              content = content;
              metadata = metadata;
            })
            content,
        w',
      )

  unfoldable pub try_from_cargo_partial :
      Text → Text → CargoSpecPartial daemon → Effect World (SpecDb Data)
  try_from_cargo_partial key version item =
      spec_row (codes "Cargo") key version item.metadata (r.cargo_to_value item)

  unfoldable pub try_to_cargo_spec : SpecDb Data → Result (CargoSpec daemon)
  try_to_cargo_spec row = Io.map_ok (cargo_spec_of row) (r.cargo_from_value row.content)

  unfoldable pub update_from_cargo_spec : Text → CargoSpecPartial daemon → Text → Effect World Cargo
  update_from_cargo_spec key item version = do
    cargo ← reading (b.read_cargo key)
    new_spec ← try_from_cargo_partial key version item
    row ← r.create_spec new_spec
    spec ← reading (λ _. try_to_cargo_spec row)
    r.update_cargo key item.name spec.key
    pure (set_cargo_spec cargo spec)

-- the same for machines
abbrev vm_spec_of : {Data : Type 0} → SpecDb Data → VmSpecPartial daemon → VmSpec daemon
vm_spec_of row p = record {
  key = row.key;
  created_at = row.created_at;
  name = p.name;
  version = row.version;
  vm_key = row.kind_key;
  metadata = row.metadata;
  hostname = p.hostname;
  password = p.password;
  ssh_key = p.ssh_key;
  user = p.user;
  disk = p.disk;
  mac_address = p.mac_address;
  labels = p.labels;
  host_config = unwrap_or p.host_config default_host_config;
}

abbrev vm_of : Text → ObjPsStatus → VmSpec daemon → Vm
vm_of namespace_name status spec = record {
  vm_key = spec.vm_key;
  name = spec.name;
  namespace_name = namespace_name;
  version = spec.version;
  metadata = spec.metadata;
  hostname = spec.hostname;
  user = spec.user;
  password = spec.password;
  ssh_key = spec.ssh_key;
  disk = spec.disk;
  host_config = spec.host_config;
  status = status;
}

unfoldable pub with_vm_spec : VmDb → VmSpec daemon → ObjPsStatus → Vm
with_vm_spec item spec status = vm_of item.namespace_name status spec

module _ {World Data : Type 0} (b : Backend World) (r : Repositories World Data) where
  unfoldable pub try_from_vm_partial :
      Text → Text → VmSpecPartial daemon → Effect World (SpecDb Data)
  try_from_vm_partial key version item =
      spec_row b r (codes "Vm") key version item.metadata (r.vm_to_value item)

  unfoldable pub try_to_vm_spec : SpecDb Data → Result (VmSpec daemon)
  try_to_vm_spec row = Io.map_ok (vm_spec_of row) (r.vm_from_value row.content)

  unfoldable pub update_from_vm_spec : Text → VmSpecPartial daemon → Text → Effect World Vm
  update_from_vm_spec key item version = do
    vm ← reading (b.read_vm key)
    new_spec ← try_from_vm_partial vm.vm_key version item
    row ← r.create_spec new_spec
    spec ← reading (λ _. try_to_vm_spec row)
    r.update_vm key item.name spec.key
    pure (vm_of vm.namespace_name vm.status spec)
