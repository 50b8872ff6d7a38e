-- ===== src/Statefile/Apply.antt =====
-- Applying a Statefile: state_apply of bin/nanocl/src/commands/state.rs. The messages of the
-- progress bars are left out, and `unwrap` of metadata that is no object ends with an error.
use nanocl.Prelude.{
  Text, codes, Bool, ◌||◌, not, Option, none, some, List, [], ◌∷◌, ◌++◌, decide, unwrap_or,
  if◌then◌else◌,
}
use nanocl.Io.{IoError, ErrorKind, Result, ok, err, with_context}
use nanocl.System.Action.{NativeEventAction}
use nanocl.System.Event.{EventActorKind}
use nanocl.Effect.{Effect, pure, ◌>>=◌, ◌>>◌, for_each}
use nanocl.Statefile.Objects.{
  Foreign, Secret, SecretPartial, Resource, ResourcePartial, CargoSpec, CargoSpecPartial, VmSpec,
  VmSpecPartial, JobPartial, SecretPartial-discrete, ResourcePartial-discrete,
  CargoSpecPartial-discrete, VmSpecPartial-discrete,
}
use nanocl.Statefile.Objects.Partial.{
  secret_partial, secret_update, resource_partial, resource_update, cargo_partial, vm_partial,
  vm_update,
}
use nanocl.Statefile.{
  Client, StateRef, create_secret, patch_secret, create_job, delete_job, create_cargo, put_cargo,
  create_vm, patch_vm, create_resource, put_resource, start_process,
}
use nanocl.Statefile.Wait.{wait_process_state}

abbrev pub group_key : Text
group_key = codes "io.nanocl.group"

abbrev no_object : IoError
no_object = with_context ErrorKind.other (codes "panic") (codes "called unwrap on a None value")

abbrev or_panic {ℓ} : {A : Type ℓ} → Option A → Result A
or_panic none = err no_object
or_panic (some a) = ok a

abbrev pub key_of : Text → Text → Text
key_of name namespace = name ++ codes "." ++ namespace

module _ (F : Foreign) where
  unfoldable pub insert_nanocl_group : Option F.Value → Text → Result F.Value
  insert_nanocl_group none group = ok (F.object ((group_key, F.string group) ∷ []))
  insert_nanocl_group (some metadata) group =
      or_panic (F.insert group_key (F.string group) metadata)

module _ {F : Foreign} where
  unfoldable pub get_nanocl_group : StateRef F → Text
  get_nanocl_group state_file = unwrap_or state_file.content.group state_file.location

  abbrev pub namespace_of : StateRef F → Text
  namespace_of state_file = unwrap_or state_file.content.namespace (codes "global")

module _ {F : Foreign} {World : Type 0} (c : Client F World) where
  -- the metadata of an object with the group
  abbrev pub grouped : Option F.Value → Text → Effect World F.Value
  grouped metadata group w = (insert_nanocl_group F metadata group, w)

  -- an action, between the subscription of a waiter and the wait for it
  abbrev pub waiting :
      Text → EventActorKind → NativeEventAction → Effect World (Unit {0}) → Effect World (Unit {0})
  waiting key kind action m = do waiter ← wait_process_state c key kind (action ∷ []); m; waiter

  abbrev pub secret_found : SecretPartial F → Result (Secret F) → Effect World (Unit {0})
  secret_found secret (err _) = c.send (create_secret secret)
  secret_found secret (ok inspect) =
      if not (decide (SecretPartial-discrete F (secret_partial inspect) secret))
      then c.send (patch_secret secret.name (secret_update secret))
      else pure tt

  unfoldable pub apply_secret : Text → SecretPartial F → Effect World (Unit {0})
  apply_secret group secret = do
    metadata ← grouped secret.metadata group
    let secret = record secret { metadata = some metadata }
    λ w. secret_found secret (c.inspect_secret secret.name w) w

  abbrev pub clear_job : Text → Result (Unit {0}) → Effect World (Unit {0})
  clear_job name (err _) = pure tt
  clear_job name (ok _) =
      waiting name EventActorKind.job NativeEventAction.destroy (c.send (delete_job name))

  unfoldable pub apply_job : Text → JobPartial F → Effect World (Unit {0})
  apply_job group job = do
    metadata ← grouped job.metadata group
    let job = record job { metadata = some metadata }
    λ w. clear_job job.name (c.inspect_job job.name w) w
    c.send (create_job job)
    waiting job.name EventActorKind.job NativeEventAction.start
        (c.send (start_process (codes "job") job.name none))

  abbrev pub new_cargo : Text → CargoSpecPartial F → Effect World (Unit {0})
  new_cargo namespace cargo = do
    c.send (create_cargo cargo (some namespace))
    waiting (key_of cargo.name namespace) EventActorKind.cargo NativeEventAction.start
        (c.send (start_process (codes "cargo") cargo.name (some namespace)))

  abbrev pub update_cargo : Text → CargoSpecPartial F → Effect World (Unit {0})
  update_cargo namespace cargo =
      waiting (key_of cargo.name namespace) EventActorKind.cargo NativeEventAction.start
        (c.send (put_cargo cargo.name cargo (some namespace)))

  abbrev pub cargo_found :
      Bool → Text → CargoSpecPartial F → Result (CargoSpec F) → Effect World (Unit {0})
  cargo_found reload namespace cargo (err _) = new_cargo namespace cargo
  cargo_found reload namespace cargo (ok spec) =
      if not (decide (CargoSpecPartial-discrete F (cargo_partial spec) cargo)) || reload
      then update_cargo namespace cargo
      else pure tt

  unfoldable pub apply_cargo : Bool → Text → Text → CargoSpecPartial F → Effect World (Unit {0})
  apply_cargo reload namespace group cargo = do
    metadata ← grouped cargo.metadata group
    let cargo = record cargo { metadata = some metadata }
    λ w. cargo_found reload namespace cargo (c.inspect_cargo cargo.name (some namespace) w) w

  -- The waiter of an update is one for a cargo, as in the source.
  abbrev pub vm_found : Bool → Text → VmSpecPartial F → Result (VmSpec F) → Effect World (Unit {0})
  vm_found reload namespace vm (err _) = do
    c.send (create_vm vm (some namespace))
    waiting (key_of vm.name namespace) EventActorKind.vm NativeEventAction.start
        (c.send (start_process (codes "vm") vm.name (some namespace)))
  vm_found reload namespace vm (ok spec) =
      if not (decide (VmSpecPartial-discrete F (vm_partial spec) vm)) || reload
      then waiting (key_of vm.name namespace) EventActorKind.cargo NativeEventAction.start
          (c.send (patch_vm vm.name (vm_update vm) (some namespace)))
      else pure tt

  unfoldable pub apply_vm : Bool → Text → Text → VmSpecPartial F → Effect World (Unit {0})
  apply_vm reload namespace group vm = do
    metadata ← grouped vm.metadata group
    let vm = record vm { metadata = some metadata }
    λ w. vm_found reload namespace vm (c.inspect_vm vm.name (some namespace) w) w

  abbrev pub resource_found :
      Bool → ResourcePartial F → Result (Resource F) → Effect World (Unit {0})
  resource_found reload resource (err _) = c.send (create_resource resource)
  resource_found reload resource (ok inspect) =
      if not (decide (ResourcePartial-discrete F (resource_partial inspect) resource)) || reload
      then c.send (put_resource resource.name (resource_update resource))
      else pure tt

  unfoldable pub apply_resource : Bool → Text → ResourcePartial F → Effect World (Unit {0})
  apply_resource reload group resource = do
    metadata ← grouped resource.metadata group
    let resource = record resource { metadata = some metadata }
    λ w. resource_found reload resource (c.inspect_resource resource.name w) w

  -- `if let Some(list) = ... { for ... }`
  abbrev pub each :
      {A : Type 0} → (A → Effect World (Unit {0})) → Option (List A) → Effect World (Unit {0})
  each f none = pure tt
  each f (some xs) = for_each f xs

  -- with the option `reload`
  unfoldable pub state_apply : Bool → StateRef F → Effect World (Unit {0})
  state_apply reload state_file = do
    let namespace = namespace_of state_file
    let nanocl_group = get_nanocl_group state_file
    each (apply_secret nanocl_group) state_file.content.secrets
    each (apply_job nanocl_group) state_file.content.jobs
    each (apply_cargo reload namespace nanocl_group) state_file.content.cargoes
    each (apply_vm reload namespace nanocl_group) state_file.content.virtual_machines
    each (apply_resource reload nanocl_group) state_file.content.resources
