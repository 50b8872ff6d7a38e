-- ===== src/Tests/Client.antt =====
-- A daemon for the command line whose objects are in memory: secrets, resources and cargoes are
-- kept, and every request is written down.
use native.Mathlib.Decide.{ℕ_discrete}
use nanocl.Prelude.{ℕ, Text, codes, Option, none, some, List, [], ◌∷◌, ◌++◌, refl}
use nanocl.Io.{Result, ok, err, IoError, ErrorKind, with_context}
use nanocl.Statefile.Objects.{
  Foreign, Secret, SecretPartial, Resource, ResourcePartial, CargoSpec, CargoSpecPartial, VmSpec,
}
use nanocl.Statefile.{
  Client, Request, create_secret, patch_secret, create_cargo, put_cargo, create_resource,
  put_resource,
}
use nanocl.Tests.Kept.{Kept, set_secret, set_resource, set_cargo, updated_secret, updated_resource}
use nanocl.Statefile.Logged.{IsLogged}

pub data Json : Type 0 where
  text : Text → Json
  fields : List (Text × Text) → Json
  other_json : Json

pub Json-discrete : Discrete Json
Json-discrete = hlevel ℕ_discrete

abbrev text_of : Json → Text
text_of (text t) = t
text_of _ = []

abbrev text_fields : List (Text × Json) → List (Text × Text)
text_fields [] = []
text_fields ((k, v) ∷ m) = (k, text_of v) ∷ text_fields m

abbrev insert_json : Text → Json → Json → Option Json
insert_json k v (fields m) = some (fields ((k, text_of v) ∷ m))
insert_json k v _ = none

pub ℕ-discrete : Discrete ℕ
ℕ-discrete = ℕ_discrete

abbrev pub json : Foreign
json = record {
  Value = Json;
  value_discrete = Json-discrete;
  string = text;
  Float = ℕ;
  number = λ n. other_json;
  boolean = λ b. other_json;
  object = λ m. fields (text_fields m);
  insert = insert_json;
  Config = ℕ;
  config_discrete = ℕ-discrete;
  Labels = ℕ;
  labels_discrete = ℕ-discrete;
}

pub record Shell : Type 0 where
  pub kept : Kept json
  pub sent : List (Request json)

abbrev missing : IoError
missing = with_context ErrorKind.not_found (codes "Daemon") (codes "no such object")

abbrev conflict : IoError
conflict = with_context ErrorKind.other (codes "Daemon") (codes "conflict")

-- the change of an object that may be there
abbrev unless_there :
    {A : Type 0} → Option A → Kept json → Kept json → Result (Unit {0}) × Kept json
unless_there none new old = (ok tt, new)
unless_there (some _) new old = (err conflict, old)

abbrev if_there :
    {A : Type 0} → Option A → (A → Kept json) → Kept json → Result (Unit {0}) × Kept json
if_there none new old = (err missing, old)
if_there (some a) new old = (ok tt, new a)

unfoldable pub change : Request json → Kept json → Result (Unit {0}) × Kept json
change (create_secret s) k = unless_there (k.secrets s.name) (set_secret s.name s k) k
change (patch_secret n u) k = if_there (k.secrets n) (λ s. set_secret n (updated_secret u s) k) k
change (create_resource r) k = unless_there (k.resources r.name) (set_resource r.name r k) k
change (put_resource n u) k =
    if_there (k.resources n) (λ r. set_resource n (updated_resource u r) k) k
change (create_cargo g (some ns)) k = (ok tt, set_cargo ns g.name g k)
change (put_cargo n g (some ns)) k = (ok tt, set_cargo ns n g k)
change _ k = (ok tt, k)

abbrev pub found_secret : Option (SecretPartial json) → Result (Secret json)
found_secret none = err missing
found_secret (some s) = ok (record {
  name = s.name;
  created_at = 0;
  updated_at = 0;
  kind = s.kind;
  immutable = s.immutable;
  metadata = s.metadata;
  content = s.content;
})

abbrev pub found_resource : Option (ResourcePartial json) → Result (Resource json)
found_resource none = err missing
found_resource (some r) = ok (record {
  kind = r.kind;
  created_at = 0;
  spec = record {
    key = [];
    version = codes "v0.16";
    created_at = 0;
    resource_key = r.name;
    content = r.content;
    metadata = r.metadata;
  };
})

abbrev pub found_cargo : Option (CargoSpecPartial json) → Result (CargoSpec json)
found_cargo none = err missing
found_cargo (some g) = ok (record {
  key = [];
  cargo_key = g.name;
  version = codes "v0.16";
  created_at = 0;
  name = g.name;
  metadata = g.metadata;
  init_container = g.init_container;
  secrets = g.secrets;
  image_pull_secret = g.image_pull_secret;
  image_pull_policy = g.image_pull_policy;
  container = g.container;
  replication = g.replication;
})

-- the namespace is always given
abbrev in_namespace : {B : Type 0} → (Text → Result B) → Option Text → Result B
in_namespace f none = err missing
in_namespace f (some ns) = f ns

abbrev pub box_spec : VmSpec json
box_spec = record {
  key = [];
  created_at = 0;
  name = codes "box";
  version = codes "v0.16";
  vm_key = codes "box.global";
  metadata = none;
  hostname = none;
  password = none;
  ssh_key = none;
  user = none;
  disk = record { image = codes "ubuntu"; size = some 20 };
  mac_address = none;
  labels = none;
  host_config = record {
    cpu = 1;
    memory = 512;
    net_iface = none;
    link_net_iface = none;
    kvm = none;
    dns = none;
    runtime = none;
    runtime_network = none;
    host_tun = none;
  };
}

unfoldable pub shell : Client json Shell
unfolding change
shell = record {
  send = λ r w.
      let (result, kept) = change r w.kept in
      (result, record { kept = kept; sent = w.sent ++ r ∷ [] });
  watch_events = λ _ w. (ok 0, w);
  events = λ _ w. ([], w);
  inspect_secret = λ n w. found_secret (w.kept.secrets n);
  inspect_job = λ n w. err missing;
  inspect_cargo = λ n ns w. in_namespace (λ x. found_cargo (w.kept.cargoes x n)) ns;
  inspect_vm = λ n ns w. ok box_spec;
  inspect_resource = λ n w. found_resource (w.kept.resources n);
  list_secret = λ g w. ok [];
  list_cargo = λ g ns w. ok [];
  list_vm = λ g ns w. ok (box_spec ∷ []);
  list_resource = λ g w. ok [];
}

unfoldable pub shell-IsLogged : IsLogged shell
unfolding shell
shell-IsLogged = record {
  sent = λ w. w.sent;
  send_sent = λ r w. refl;
  watch_sent = λ x w. refl;
  events_sent = λ x w. refl;
}
