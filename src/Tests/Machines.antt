-- ===== src/Tests/Machines.antt =====
-- A machine that is started, with a table of processes that filters by labels.
use nanocl.Prelude.{Text, codes, ◌=ₜ◌, any, none, some, Option, List, [], ◌∷◌, retain, refl, ap}
use nanocl.Io.{Result, ok}
use nanocl.Process.{Process, ContainerState}
use nanocl.System.Status.{ObjPsStatusKind}
use nanocl.System.Action.{NativeEventAction}
use nanocl.Backend.{Backend}
use nanocl.Backend.Laws.{IsLawful}
use nanocl.Container.Process.Reports.{Ended}
use nanocl.Container.Machine.{VmImages, start_vm}
use nanocl.Container.Machine.Unstarted.{Filters, has_label, start_vm-Ended}
use nanocl.Tests.Memory.{Memory, memory, memory-IsLawful, find, world, process, started, machine}
use nanocl.Container.Create.Unseen.{IsQuiet}
use nanocl.Tests.Update.{fine, fine-IsQuiet}

abbrev labelled : Option (Text × Text) → List Process → List Process
labelled none ps = ps
labelled (some label) ps = retain (λ p. has_label label p.labels) ps

abbrev filtering : Backend Memory
filtering = record memory {
  read_processes = λ key label m. ok (labelled label (retain (λ p. p.kind_key =ₜ key) m.processes));
}

abbrev processes_of : Result (List Process) → List Process
processes_of (ok ps) = ps
processes_of _ = []

filtering-Filters : Filters filtering
filtering-Filters key label ps w h =
    ap (λ r. ok (retain (λ p. has_label label p.labels) (processes_of r))) h

unfoldable filtering-IsLawful : IsLawful filtering
unfolding memory memory-IsLawful
filtering-IsLawful = record {
  see = memory-IsLawful.see;
  read_ok = memory-IsLawful.read_ok;
  update_ok = memory-IsLawful.update_ok;
  update_err = memory-IsLawful.update_err;
  write_see = memory-IsLawful.write_see;
  docker_see = memory-IsLawful.docker_see;
  store_see = memory-IsLawful.store_see;
  store_ok = memory-IsLawful.store_ok;
  send_ok = memory-IsLawful.send_ok;
  send_err = memory-IsLawful.send_err;
}

filtering-IsQuiet : IsQuiet filtering filtering-IsLawful fine
unfolding filtering-IsLawful
filtering-IsQuiet = record {
  download_see = fine-IsQuiet.download_see;
  secrets_see = fine-IsQuiet.secrets_see;
  id_see = fine-IsQuiet.id_see;
  create_see = fine-IsQuiet.create_see;
  create_from_see = fine-IsQuiet.create_from_see;
  wait_see = fine-IsQuiet.wait_see;
}

abbrev images : VmImages Memory
images = record {
  state_dir = codes "/var/lib/nanocl";
  read_image = λ image w. ok (codes "/var/lib/nanocl/vms/images/ubuntu.img");
  delete_image = λ image w. (ok tt, w);
}

abbrev off : ContainerState
off = record {
  restarting = none;
  running = none;
  finished_at = none;
  exit_code = none;
  error = none;
}

abbrev box : Process
box = process (codes "box.global.v") (codes "box.global") off

abbrev stopped : Memory
stopped = world (box ∷ []) started

start_vm-Ended_example :
    Ended filtering
      (codes "box.global")
      ObjPsStatusKind.start
      NativeEventAction.start
      []
      (filtering-IsLawful.see stopped)
      (start_vm filtering fine images (codes "box.global") stopped).0
      (filtering-IsLawful.see (start_vm filtering fine images (codes "box.global") stopped).1)
unfolding memory find retain ◌=ₜ◌ any
start_vm-Ended_example =
    start_vm-Ended filtering filtering-IsLawful filtering-Filters fine filtering-IsQuiet images
      (codes "box.global") stopped machine (codes "/var/lib/nanocl/vms/images/ubuntu.img")
      (box ∷ []) (box ∷ []) refl refl refl refl refl (refl, tt)
