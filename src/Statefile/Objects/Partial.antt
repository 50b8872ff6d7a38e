-- ===== src/Statefile/Objects/Partial.antt =====
-- What the daemon returns, turned into what a Statefile defines, and into updates.
use nanocl.Prelude.{some}
use nanocl.Statefile.Objects.{
  Foreign, SecretPartial, Secret, SecretUpdate, ResourcePartial, Resource, ResourceUpdate,
  CargoSpecPartial, CargoSpec, VmSpecPartial, VmSpec, VmSpecUpdate,
}

module _ {F : Foreign} where
  -- `Secret` into `SecretPartial`
  abbrev pub secret_partial : Secret F → SecretPartial F
  secret_partial secret = record {
    name = secret.name;
    kind = secret.kind;
    immutable = secret.immutable;
    metadata = secret.metadata;
    content = secret.content;
  }

  abbrev pub secret_update : SecretPartial F → SecretUpdate F
  secret_update partial = record { metadata = partial.metadata; content = partial.content }

  abbrev pub resource_partial : Resource F → ResourcePartial F
  resource_partial resource = record {
    name = resource.spec.resource_key;
    kind = resource.kind;
    content = resource.spec.content;
    metadata = resource.spec.metadata;
  }

  abbrev pub resource_update : ResourcePartial F → ResourceUpdate F
  resource_update resource = record { content = resource.content; metadata = resource.metadata }

  abbrev pub cargo_partial : CargoSpec F → CargoSpecPartial F
  cargo_partial spec = record {
    name = spec.name;
    metadata = spec.metadata;
    init_container = spec.init_container;
    secrets = spec.secrets;
    image_pull_secret = spec.image_pull_secret;
    image_pull_policy = spec.image_pull_policy;
    container = spec.container;
    replication = spec.replication;
  }

  abbrev pub vm_partial : VmSpec F → VmSpecPartial F
  vm_partial spec = record {
    name = spec.name;
    metadata = spec.metadata;
    hostname = spec.hostname;
    user = spec.user;
    password = spec.password;
    ssh_key = spec.ssh_key;
    disk = spec.disk;
    mac_address = spec.mac_address;
    labels = spec.labels;
    host_config = some spec.host_config;
  }

  abbrev pub vm_update : VmSpecPartial F → VmSpecUpdate F
  vm_update spec = record {
    name = some spec.name;
    metadata = spec.metadata;
    hostname = spec.hostname;
    user = spec.user;
    password = spec.password;
    ssh_key = spec.ssh_key;
    labels = spec.labels;
    host_config = spec.host_config;
  }
