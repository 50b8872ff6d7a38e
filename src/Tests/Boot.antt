-- ===== src/Tests/Boot.antt =====
-- A node whose containers, processes and images are in memory.
use nanocl.Prelude.{
  Text, codes, ◌=ₜ◌, true, map, retain, none, some, List, [], ◌∷◌, ◌≡◌, refl, inl, inr, Bool-cases,
  split,
}
use nanocl.Io.{Result, ok}
use nanocl.Process.{Process}
use nanocl.VmImage.{VmImageDb}
use nanocl.Sync.{
  ContainerStatus, Inspection, Node, sync_cargo_status, actual_of, and_then, get, owner,
}
use nanocl.Sync.Processes.{sync_processes}
use nanocl.Sync.Images.{sync_vm_images, stem}
use nanocl.Sync.Started.{report_row, sync_cargo_status-reported}
use nanocl.Sync.Zombies.{Row, IsSweep, Synced, stays, sync_processes-Synced}
use nanocl.Sync.Files.{IsKnown, sync_vm_images-known}
use nanocl.Tests.Images.{images}
use nanocl.Tests.Specs.{repositories}
use nanocl.Tests.Memory.{
  Memory, memory, memory-IsLawful, find, or_absent, no_config, process, world, web, web_key,
}

abbrev row_of : Process → Row
row_of p = record { key = p.key; node = p.node_name }

abbrev ended : Process → Inspection Process
ended p = record {
  id = some p.key;
  created = some (codes "2024-01-01T00:00:00Z");
  name = some p.name;
  status = some ContainerStatus.exited;
  config = no_config;
  host_config = none;
  content = p;
}

abbrev sample : Text → Process
sample key = process key web_key (record {
  restarting = none;
  running = none;
  finished_at = none;
  exit_code = none;
  error = none;
})

-- Docker has two containers, of which one has labels of the daemon.
unfoldable node : Node Memory Process
unfolding find
node = record {
  same = λ a b. true;
  list_containers = λ m. ok (
      record {
        id = some (codes "one");
        labels =
            some ((codes "io.nanocl.kind", codes "cargo") ∷ (codes "io.nanocl.c", web_key) ∷ []);
      }
      ∷ record { id = some (codes "two"); labels = none }
      ∷ []);
  inspect = λ id m. ok (ended (sample id));
  parse_time = λ text. inr 0;
  read_process = λ id m. or_absent (find (λ p. p.key) id m.processes);
  update_process = λ id name now p m. (ok tt, m);
  store_process = λ p m. (ok tt, record m { processes = p.content ∷ m.processes });
  delete_others = λ node_name ids m.
      (ok tt, record m { processes = retain (λ p. stays node_name ids (row_of p)) m.processes });
  read_namespace = λ name m. ok tt;
  create_namespace = λ name m. (ok tt, m);
  version = codes "0.16";
  show_status = λ status. codes "status";
}

rows-retain :
    (node_name : Text) (ids : List Text) (ps : List Process)
    → map row_of (retain (λ p. stays node_name ids (row_of p)) ps)
      ≡ retain (stays node_name ids) (map row_of ps)
unfolding retain
rows-retain node_name ids [] = refl
rows-retain node_name ids (p ∷ ps) = elim (Bool-cases (stays node_name ids (row_of p))) [
  | inl h ↦ rw (h, rows-retain node_name ids ps)
  | inr h ↦ rw (h, rows-retain node_name ids ps)
]

unfoldable node-IsSweep : IsSweep node
unfolding node
node-IsSweep = record {
  rows = λ m. map row_of m.processes;
  deleted = λ node_name ids m h. rows-retain node_name ids m.processes;
}

-- a cargo whose container ended since it was asked to stop, and a process without a container
abbrev stopped : Memory
stopped = world (sample (codes "zombie") ∷ []) (record {
  wanted = codes "stop";
  prev_wanted = codes "start";
  actual = codes "stop";
  prev_actual = codes "start";
})

sync_processes-Synced_example :
    Synced memory node repositories node-IsSweep stopped
      (sync_processes memory node repositories stopped).0
      (sync_processes memory node repositories stopped).1
sync_processes-Synced_example = sync_processes-Synced memory node repositories node-IsSweep stopped

sync_cargo_status-reported_example :
    let container = ended (sample (codes "one")) in
    memory-IsLawful.see (sync_cargo_status memory node web container stopped).1
    ≡ record (memory-IsLawful.see stopped) {
      rows =
          report_row web.cargo_key
            (and_then container.status actual_of)
            (memory-IsLawful.see stopped).rows;
    }
unfolding sync_cargo_status actual_of memory
sync_cargo_status-reported_example =
    sync_cargo_status-reported memory memory-IsLawful node web (ended (sample (codes "one")))
      stopped refl

-- the image is in the table, and its file in the directory
abbrev ubuntu : VmImageDb
ubuntu = record {
  name = codes "ubuntu.22";
  node_name = codes "node";
  created_at = 0;
  kind = codes "Base";
  path = codes "/var/lib/nanocl/vms/images/ubuntu.22.img";
  format = codes "qcow2";
  size_actual = 1;
  size_virtual = 2;
  parent = none;
}

abbrev files : List (Text × Text)
files = (codes "ubuntu.22.img", ubuntu.path) ∷ []

abbrev read_files : Text → List VmImageDb → Result (List (Text × Text))
read_files path w = ok files

ubuntu-IsKnown : IsKnown images read_files (ubuntu ∷ []) (codes "ubuntu.22.img", ubuntu.path)
unfolding images ◌=ₜ◌
ubuntu-IsKnown = record { name = codes "ubuntu.22"; image = ubuntu; named = refl; stored = refl }

sync_vm_images-known_example : sync_vm_images images read_files (ubuntu ∷ []) ≡ (ok tt, ubuntu ∷ [])
unfolding images
sync_vm_images-known_example =
    sync_vm_images-known images read_files (ubuntu ∷ []) files refl (ubuntu-IsKnown, tt)

-- the object of a container with labels, and the name of the image in a file
owner_of_job :
    owner ((codes "io.nanocl.j", codes "backup") ∷ (codes "io.nanocl.kind", codes "job") ∷ [])
    ≡ some (codes "job", codes "backup")
unfolding owner get ◌=ₜ◌
owner_of_job = refl

stem_dots : stem (split b'.' (codes "ubuntu.22.img")) ≡ codes "ubuntu.22"
unfolding stem split
stem_dots = refl
