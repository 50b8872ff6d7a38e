-- ===== src/Tests/Memory.antt =====
-- A daemon whose tables, containers and event loop are in memory, to run the definitions on.
use nanocl.Prelude.{
  Text, codes, ◌=ₜ◌, Option, none, some, List, [], ◌∷◌, refl, sym, ap, if◌then◌else◌, Option-cases,
  inl, inr, retain, true,
}
use nanocl.Io.{IoError, Result, ok, err, with_context, ErrorKind}
use nanocl.System.Status.{ObjPsStatusKind}
use nanocl.System.Event.{Event, EventPartial}
use nanocl.Process.{Process, ProcessKind, ContainerState}
use nanocl.Statefile.Objects.{VmHostConfig}
use nanocl.Workload.{Config, Cargo, Vm, Job, ObjPsStatus}
use nanocl.Status.{ObjPsStatusDb, ObjPsStatusUpdate}
use nanocl.Backend.{Backend, done}
use nanocl.Backend.Laws.{Seen, Columns, IsLawful, columns, set_rows, add_sent, add_call, partial_of}

pub record Memory : Type 0 where
  pub seen : Seen
  pub cargoes : List Cargo
  pub vms : List Vm
  pub jobs : List Job
  pub processes : List Process

abbrev pub absent : IoError
absent = with_context ErrorKind.not_found (codes "Memory") (codes "no such row")

module _ {A : Type 0} where
  abbrev pub or_absent : Option A → Result A
  or_absent none = err absent
  or_absent (some a) = ok a

  unfoldable pub find : (A → Text) → Text → List A → Option A
  find key_of key [] = none
  find key_of key (x ∷ xs) =
      let rest = find key_of key xs in if key_of x =ₜ key then some x else rest

abbrev to_row : Text → Option Columns → Result ObjPsStatusDb
to_row key none = err absent
to_row key (some c) = ok (record {
  key = key;
  created_at = 0;
  updated_at = 0;
  wanted = c.wanted;
  prev_wanted = c.prev_wanted;
  actual = c.actual;
  prev_actual = c.prev_actual;
})

abbrev update_found :
    Text → ObjPsStatusUpdate → Option Columns → Memory → Result (Unit {0}) × Memory
update_found key u none m = (err absent, m)
update_found key u (some c) m =
    (ok tt, record m { seen = record (m.seen) { rows = set_rows key u m.seen.rows } })

abbrev stored : EventPartial → Event
stored p = record {
  key = codes "0";
  created_at = 0;
  expires_at = 86400;
  reporting_node = p.reporting_node;
  reporting_controller = p.reporting_controller;
  kind = p.kind;
  action = p.action;
  reason = p.reason;
  note = p.note;
  actor = p.actor;
  related = p.related;
  metadata = p.metadata;
}

unfoldable pub memory : Backend Memory
unfolding find
memory = record {
  now = λ _. 0;
  hostname = codes "node";
  read_status = λ key m. to_row key (m.seen.rows key);
  update_status = λ key u m. update_found key u (m.seen.rows key) m;
  read_cargo = λ key m. or_absent (find (λ c. c.cargo_key) key m.cargoes);
  read_vm = λ key m. or_absent (find (λ v. v.vm_key) key m.vms);
  read_job = λ key m. or_absent (find (λ j. j.name) key m.jobs);
  cargoes_with_secret = λ key m. ok m.cargoes;
  read_processes = λ key _ m. ok (retain (λ p. p.kind_key =ₜ key) m.processes);
  write = λ _ m. (ok tt, m);
  docker = λ c m. (done, record m { seen = add_call c m.seen });
  inspect_container = λ key m. or_absent (find (λ p. p.key) key m.processes);
  store_event = λ p m. (ok (stored p), m);
  send = λ e m. (none, record m { seen = add_sent (partial_of e) m.seen });
}

abbrev sent_of : EventPartial → Result Event → EventPartial
sent_of p (ok e) = partial_of e
sent_of p (err _) = p

abbrev columns_of : Result ObjPsStatusDb → Option Columns
columns_of (ok r) = some (columns r)
columns_of (err _) = none

unfoldable pub memory-IsLawful : IsLawful memory
unfolding memory
memory-IsLawful = record {
  see = λ m. m.seen;
  read_ok = λ key m r h. elim (Option-cases (m.seen.rows key)) [
    | inl n ↦ cc (rw n at h)
    | inr (c, n) ↦ rw n (ap columns_of (rw n at h))
  ];
  update_ok = λ key u m h. elim (Option-cases (m.seen.rows key)) [
    | inl n ↦ cc (rw n at h)
    | inr (c, n) ↦ rw n
  ];
  update_err = λ key u m e h. elim (Option-cases (m.seen.rows key)) [
    | inl n ↦ rw n
    | inr (c, n) ↦ cc (rw n at h)
  ];
  write_see = λ x m. refl;
  docker_see = λ c m. refl;
  store_see = λ p m. refl;
  store_ok = λ p m e h. sym (ap (sent_of p) h);
  send_ok = λ e m h. refl;
  send_err = λ e m t h. cc;
}

abbrev pub web_key : Text
web_key = codes "web.global"

abbrev status : ObjPsStatus
status = record {
  updated_at = 0;
  wanted = ObjPsStatusKind.start;
  prev_wanted = ObjPsStatusKind.create;
  actual = ObjPsStatusKind.start;
  prev_actual = ObjPsStatusKind.starting;
}

abbrev pub no_config : Config
no_config = record {
  image = some (codes "nginx");
  hostname = none;
  env = none;
  labels = none;
  attach_stderr = none;
  attach_stdout = none;
  attach_stdin = none;
  open_stdin = none;
  tty = none;
  cmd = none;
  host_config = none;
}

abbrev pub web : Cargo
web = record {
  cargo_key = web_key;
  name = codes "web";
  namespace_name = codes "global";
  version = codes "v0.16";
  metadata = none;
  container = no_config;
  init_container = none;
  secrets = none;
  image_pull_secret = none;
  image_pull_policy = none;
  replication = none;
  status = status;
}

abbrev one_core : VmHostConfig
one_core = record {
  cpu = 0;
  memory = 1024;
  net_iface = none;
  link_net_iface = none;
  kvm = some true;
  dns = none;
  runtime = none;
  runtime_network = none;
  host_tun = none;
}

abbrev pub machine : Vm
machine = record {
  vm_key = codes "box.global";
  name = codes "box";
  namespace_name = codes "global";
  version = codes "v0.16";
  metadata = none;
  hostname = none;
  user = none;
  password = none;
  ssh_key = none;
  disk = record { image = codes "ubuntu"; size = none };
  host_config = one_core;
  status = status;
}

abbrev pub backup : Job
backup = record {
  name = codes "backup";
  metadata = none;
  schedule = none;
  secrets = none;
  ttl = some 60;
  image_pull_secret = none;
  image_pull_policy = none;
  containers = [];
  status = status;
}

-- The state of a container that runs, and of one that ended with an exit code.
abbrev pub process : Text → Text → ContainerState → Process
process key kind_key state = record {
  key = key;
  created_at = 0;
  updated_at = 0;
  name = key;
  kind = ProcessKind.cargo;
  node_name = codes "node";
  kind_key = kind_key;
  id = some key;
  state = some state;
  labels = [];
}

abbrev pub started : Columns
started = record {
  wanted = codes "start";
  prev_wanted = codes "create";
  actual = codes "start";
  prev_actual = codes "starting";
}

abbrev pub world : List Process → Columns → Memory
world ps c = record {
  seen = record { rows = λ _. some c; sent = []; calls = [] };
  cargoes = web ∷ [];
  vms = machine ∷ [];
  jobs = backup ∷ [];
  processes = ps;
}
