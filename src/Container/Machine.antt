-- ===== src/Container/Machine.antt =====
-- The containers of a machine: bin/nanocld/src/utils/container/vm.rs. The images of machines are a
-- parameter.
pub mod Unstarted
use nanocl.Prelude.{
  ℕ, Text, codes, show, ltb, Bool, true, false, Option, none, some, List, [], ◌∷◌, ◌++◌, map,
  unwrap_or, if◌then◌else◌,
}
use nanocl.Io.{Result, ok}
use nanocl.System.Action.{NativeEventAction}
use nanocl.Process.{Process, ProcessKind}
use nanocl.Workload.{Vm, Config, vm_actor}
use nanocl.Statefile.Objects.{if_not_present}
use nanocl.Effect.{Effect, pure, reading, ◌>>=◌, ◌>>◌}
use nanocl.Backend.{Backend, clear_vm}
use nanocl.SystemState.{emit_normal_native_action_sync}
use nanocl.Container.Process.{delete_instances, start_instances}
use nanocl.Container.Create.{Builder, insert, no_host_config, create_process}

pub record VmImages (World : Type 0) : Type 0 where
  -- `state.inner.config.state_dir`
  pub state_dir : Text
  -- the path of an image
  pub read_image : Text → World → Result Text
  -- `utils::vm_image::delete_by_pk`
  pub delete_image : Text → World → Result (Unit {0}) × World

abbrev vm_runtime : Text
vm_runtime = codes "ghcr.io/next-hat/nanocl-qemu:8.0.2.0"

abbrev device : Text → Text × Text × Text
device path = (path, path, codes "rwm")

abbrev when_some : Text → Option Text → List Text
when_some prefix none = []
when_some prefix (some t) = (prefix ++ t) ∷ []

unfoldable pub vm_args : Vm → Text → List Text
vm_args vm path =
    let host_config = vm.host_config in
    (codes "-hda" ∷ path ∷ codes "--nographic" ∷ [])
    ++ ((if unwrap_or host_config.kvm false then codes "-accel" ∷ codes "kvm" ∷ [] else [])
        ++ (codes "-smp"
            ∷ (if ltb 0 host_config.cpu then show host_config.cpu else codes "1")
            ∷ codes "-m"
            ∷ (if ltb 0 host_config.memory
                then show host_config.memory ++ codes "M"
                else codes "512M")
            ∷ []))

unfoldable pub vm_env : Vm → Bool → List Text
vm_env vm disable_keygen =
    ((codes "DEFAULT_INTERFACE=" ++ unwrap_or vm.host_config.link_net_iface (codes "eth0"))
      ∷ (codes "FROM_NETWORK=" ++ unwrap_or vm.host_config.net_iface (codes "ens3"))
      ∷ (codes "DELETE_SSH_KEY=" ++ (if disable_keygen then codes "true" else codes "false"))
      ∷ [])
    ++ (when_some (codes "USER=") vm.user
        ++ (when_some (codes "PASSWORD=") vm.password ++ when_some (codes "SSH_KEY=") vm.ssh_key))

abbrev pub vm_image_of : Vm → Text
vm_image_of vm = unwrap_or vm.host_config.runtime vm_runtime

-- the configuration of the container of a machine, with the directory of the images
unfoldable pub vm_config : Vm → Text → Text → Bool → Config
vm_config vm state_dir path disable_keygen =
    let img_path = state_dir ++ codes "/vms/images" in
    record {
      image = some (vm_image_of vm);
      tty = some true;
      hostname = vm.hostname;
      env = some (vm_env vm disable_keygen);
      labels = some (
          insert (codes "io.nanocl.n") vm.namespace_name
            (insert (codes "io.nanocl.v") vm.vm_key []));
      cmd = some (vm_args vm path);
      attach_stderr = some true;
      attach_stdin = some true;
      attach_stdout = some true;
      open_stdin = some true;
      host_config = some (record no_host_config {
        network_mode = some (unwrap_or vm.host_config.runtime_network (codes "nanoclbr0"));
        binds = some ((img_path ++ (codes ":" ++ img_path)) ∷ []);
        devices = some (
            device (codes "/dev/net/tun")
            ∷ (if unwrap_or vm.host_config.kvm false then device (codes "/dev/kvm") ∷ [] else []));
        cap_add = some (codes "NET_ADMIN" ∷ []);
      });
    }

abbrev pub vm_container_name : Text → Text
vm_container_name vm_key = vm_key ++ codes ".v"

module _ {World : Type 0} (b : Backend World) (u : Builder World) (i : VmImages World) where
  unfoldable pub create_vm_instance : Vm → Text → Bool → Effect World Process
  create_vm_instance vm path disable_keygen = do
    u.download (vm_image_of vm) none if_not_present
    create_process b u ProcessKind.vm (vm_container_name vm.vm_key) vm.vm_key
        (vm_config vm i.state_dir path disable_keygen)

  abbrev pub machine_if_none : Vm → Text → List Process → Effect World (Unit {0})
  machine_if_none vm path [] = create_vm_instance vm path true >> pure tt
  machine_if_none vm path (_ ∷ _) = pure tt

  unfoldable pub start_vm : Text → Effect World (Unit {0})
  start_vm key = do
    vm ← reading (b.read_vm key)
    path ← reading (i.read_image vm.disk.image)
    processes ← reading (b.read_processes vm.vm_key none)
    machine_if_none vm path processes
    start_instances b vm.vm_key ProcessKind.vm

  unfoldable pub delete_vm : Text → Effect World (Unit {0})
  delete_vm key = do
    vm ← reading (b.read_vm key)
    processes ← reading (b.read_processes key none)
    delete_instances b (map (λ p. p.key) processes)
    i.delete_image vm.disk.image
    b.write (clear_vm vm.vm_key)
    emit_normal_native_action_sync b (vm_actor vm) NativeEventAction.destroy

  unfoldable pub update_vm : Text → Effect World (Unit {0})
  update_vm key = do
    vm ← reading (b.read_vm key)
    path ← reading (i.read_image vm.disk.image)
    delete_instances b (vm_container_name vm.vm_key ∷ [])
    create_vm_instance vm path false
    start_instances b key ProcessKind.vm
