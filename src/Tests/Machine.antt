-- ===== src/Tests/Machine.antt =====
-- A machine that is created beside a table of images.
use nanocl.Prelude.{codes, any, all, true, none, List, [], ◌∷◌, refl}
use nanocl.Io.{ok, err}
use nanocl.Backend.{Backend, done}
use nanocl.Status.{from_partial}
use nanocl.Statefile.Objects.{VmSpecPartial}
use nanocl.VmImage.{VmImageDb}
use nanocl.VmImage.Family.{HasParents}
use nanocl.Objects.Specs.{Repositories, daemon}
use nanocl.Objects.Machines.{VmObjCreateIn, create_vm}
use nanocl.Objects.Machines.Families.{LeavesImages, create_vm-HasParents}
use nanocl.Tests.Images.{images, images-IsTable, no_image, base, find_image, update_found}

-- a daemon without objects, whose events are lost
abbrev bare : Backend (List VmImageDb)
bare = record {
  now = λ w. 0;
  hostname = codes "node";
  read_status = λ key w. err no_image;
  update_status = λ key u w. (err no_image, w);
  read_cargo = λ key w. err no_image;
  read_vm = λ key w. err no_image;
  read_job = λ key w. err no_image;
  cargoes_with_secret = λ key w. ok [];
  read_processes = λ key label w. ok [];
  write = λ x w. (ok tt, w);
  docker = λ c w. (done, w);
  inspect_container = λ key w. err no_image;
  store_event = λ p w. (err no_image, w);
  send = λ e w. (none, w);
}

abbrev tables : Repositories (List VmImageDb) (VmSpecPartial daemon)
tables = record {
  is_alphanumeric = λ c. true;
  new_v4 = λ w. (codes "1", w);
  cargo_to_value = λ x. err no_image;
  cargo_from_value = λ x. err no_image;
  vm_to_value = λ x. ok x;
  vm_from_value = λ x. ok x;
  create_spec = λ x w. (ok x, w);
  create_status = λ p w. (ok (from_partial 0 p), w);
  create_cargo = λ x w. (ok x, w);
  create_vm = λ x w. (ok x, w);
  update_cargo = λ key name spec_key w. (ok tt, w);
  update_vm = λ key name spec_key w. (ok tt, w);
  read_spec_of = λ key w. err no_image;
}

bare-LeavesImages : LeavesImages bare tables images images-IsTable
bare-LeavesImages = record {
  new_rows = λ w. refl;
  status_rows = λ x w. refl;
  spec_rows = λ x w. refl;
  vm_rows = λ x w. refl;
  store_rows = λ x w. refl;
  send_rows = λ x w. refl;
}

abbrev box : VmSpecPartial daemon
box = record {
  name = codes "box";
  metadata = none;
  hostname = none;
  user = none;
  password = none;
  ssh_key = none;
  disk = record { image = codes "ubuntu"; size = none };
  mac_address = none;
  labels = none;
  host_config = none;
}

abbrev request : VmObjCreateIn
request = record { namespace = codes "global"; spec = box; version = codes "v0.16" }

create_vm-HasParents_example :
    HasParents (images-IsTable.rows (create_vm bare tables images request (base ∷ [])).1)
unfolding images images-IsTable find_image update_found all any
create_vm-HasParents_example =
    create_vm-HasParents bare tables images images-IsTable bare-LeavesImages request (base ∷ [])
      refl
