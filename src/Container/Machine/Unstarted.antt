-- ===== src/Container/Machine/Unstarted.antt =====
-- What starting a machine leaves.
use nanocl.Prelude.{
  Text, codes, ◌=ₜ◌, Bool, true, false, ◌&&◌, any, retain, none, some, List, [], ◌∷◌, All, ◌≡◌,
  refl, subst, ap, ◌∙◌, unwrap_or,
}
use nanocl.Io.{Result, ok}
use nanocl.System.Status.{ObjPsStatusKind}
use nanocl.System.Action.{NativeEventAction}
use nanocl.Process.{Process, ProcessKind}
use nanocl.Workload.{Vm}
use nanocl.Backend.{Backend, start_container}
use nanocl.Backend.Laws.{IsLawful, Seen}
use nanocl.Container.Process.{start_instances, not_init}
use nanocl.Container.Process.Reports.{Ended, spread-Ended}
use nanocl.Container.Create.{Builder}
use nanocl.Container.Create.Unseen.{IsQuiet, then-IsUnseen, create_process-IsUnseen}
use nanocl.Container.Delete.Destroyed.{IsUnseen}
use nanocl.Container.Machine.{
  VmImages, vm_config, vm_container_name, create_vm_instance, machine_if_none, start_vm,
}

-- a label is there, with its value
abbrev pub has_label : Text × Text → List (Text × Text) → Bool
has_label (k, v) m = any (λ e. (e.0 =ₜ k) && (e.1 =ₜ v)) m

-- The processes that are read with a label are those of the object that have it.
abbrev pub Filters : {World : Type 0} → Backend World → Type 0
Filters {World} b =
    (key : Text) (label : Text × Text) (ps : List Process) (w : World)
    → b.read_processes key none w ≡ ok ps
    → b.read_processes key (some label) w ≡ ok (retain (λ p. has_label label p.labels) ps)

abbrev IsUnlabelled : Process → Type 0
IsUnlabelled p = has_label not_init p.labels ≡ false

-- The container of a machine is created without the label of the containers that are started.
vm_config-unlabelled :
    (vm : Vm) (dir path : Text) (disable_keygen : Bool)
    → has_label not_init (unwrap_or (vm_config vm dir path disable_keygen).labels []) ≡ false
unfolding vm_config retain any ◌=ₜ◌
vm_config-unlabelled vm dir path disable_keygen = refl

retain-none :
    (ps : List Process) → All IsUnlabelled ps → retain (λ p. has_label not_init p.labels) ps ≡ []
unfolding retain
retain-none [] _ = refl
retain-none (p ∷ ps) (h, hs) = rw h (retain-none ps hs)

module _ {World : Type 0} (b : Backend World) (l : IsLawful b) (filters : Filters b)
    (u : Builder World) (q : IsQuiet b l u) (i : VmImages World) (key : Text) (w : World) (vm : Vm)
    (path : Text) (listed ps : List Process) where
  abbrev pub ready : Result (Unit {0}) × World
  ready = machine_if_none b u i vm path listed w

  abbrev start_result : Result (Unit {0}) × World
  start_result = start_vm b u i key w

  machine_if_none-IsUnseen : (ps : List Process) → IsUnseen b l (machine_if_none b u i vm path ps)
  unfolding create_vm_instance
  machine_if_none-IsUnseen (_ ∷ _) = record { run = λ w. refl }
  machine_if_none-IsUnseen [] =
      then-IsUnseen b l (create_vm_instance b u i vm path true) _
        (then-IsUnseen b l _ _ (record { run = q.download_see _ _ _ })
          (create_process-IsUnseen b l u q ProcessKind.vm (vm_container_name vm.vm_key) vm.vm_key
            (vm_config vm i.state_dir path true)))
        (record { run = λ w. refl })

  from_ready :
      (r : Result (Unit {0})) (after : Seen)
      → Ended b vm.vm_key ObjPsStatusKind.start NativeEventAction.start [] (l.see ready.1) r after
      → Ended b vm.vm_key ObjPsStatusKind.start NativeEventAction.start [] (l.see w) r after
  from_ready r after e =
      subst (λ s. Ended b vm.vm_key ObjPsStatusKind.start NativeEventAction.start [] s r after)
        ((machine_if_none-IsUnseen listed).run w) e

  -- If the containers of a machine, which are there or are created, have no label that marks the
  -- instances of a cargo, then starting the machine, the creation of its container included, calls
  -- Docker to start none of them: it fails, or it reports `start` and sends its event.
  pub start_vm-Ended :
      b.read_vm key w ≡ ok vm
      → i.read_image vm.disk.image w ≡ ok path
      → b.read_processes vm.vm_key none w ≡ ok listed
      → ready.0 ≡ ok tt
      → b.read_processes vm.vm_key none ready.1 ≡ ok ps
      → All IsUnlabelled ps
      → Ended b vm.vm_key ObjPsStatusKind.start NativeEventAction.start []
          (l.see w)
          start_result.0
          (l.see start_result.1)
  unfolding start_vm start_instances
  start_vm-Ended found image list made there unlabelled =
      let none_left =
        filters vm.vm_key not_init ps ready.1 there ∙ ap ok (retain-none ps unlabelled) in
      let ended =
        spread-Ended b l vm.vm_key ProcessKind.vm (codes "StartProcess")
          (λ p. start_container (unwrap_or p.id [])) ObjPsStatusKind.start NativeEventAction.start
          [] ready.1 in
      rw (found, image, list, made, none_left) (from_ready _ _ ended)
