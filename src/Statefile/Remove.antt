-- ===== src/Statefile/Remove.antt =====
-- Removing what a Statefile defines, and the orphans of its group: state_remove and remove_orphans
-- of bin/nanocl/src/commands/state.rs, with exec_rm of bin/nanocl/src/commands/generic.rs, which is
-- called without a confirmation.
use mathlib.Core.Option
use nanocl.Prelude.{
  Text, codes, ◌=ₜ◌, true, not, Option, none, some, List, [], ◌∷◌, map, any, retain, unwrap_or,
}
use nanocl.Io.{Result, ok, err}
use nanocl.System.Action.{NativeEventAction}
use nanocl.System.Event.{EventActorKind}
use nanocl.Effect.{Effect, pure, reading, ignoring, ◌>>=◌, ◌>>◌, for_each}
use nanocl.Statefile.Objects.{Foreign, Secret, CargoSpec, VmSpec, Resource}
use nanocl.Statefile.Objects.Partial.{secret_partial, resource_partial, cargo_partial, vm_partial}
use nanocl.Statefile.{Client, StateRef, CargoDeleteQuery, delete}
use nanocl.Statefile.Wait.{wait_process_state}
use nanocl.Statefile.Apply.{get_nanocl_group, namespace_of, key_of}

-- The objects that have a command to remove them.
pub data RemoveArg : Type 0 where
  job_arg cargo_arg vm_arg resource_arg secret_arg : RemoveArg

unfoldable pub object_name : RemoveArg → Text
object_name job_arg = codes "jobs"
object_name cargo_arg = codes "cargoes"
object_name vm_arg = codes "vms"
object_name resource_arg = codes "resources"
object_name secret_arg = codes "secrets"

-- for a cargo the removal is forced here
unfoldable pub get_query : RemoveArg → Option Text → Option CargoDeleteQuery
get_query cargo_arg namespace = some (record { namespace = namespace; force = some true })
get_query _ namespace = none

-- the key and the kind to wait for
abbrev pub waiter_kind : RemoveArg → Text → Option Text → Text × Option EventActorKind
waiter_kind vm_arg name namespace = (key_of name (unwrap_or namespace []), some EventActorKind.vm)
waiter_kind cargo_arg name namespace =
    (key_of name (unwrap_or namespace []), some EventActorKind.cargo)
waiter_kind job_arg name namespace = (name, some EventActorKind.job)
waiter_kind _ name namespace = (name, none)

-- the old objects whose names are not among the new
unfoldable pub removed : {A : Type 0} → (A → Text) → List A → List A → List A
removed name old new = retain (λ o. not (any (λ n. name n =ₜ name o) new)) old

module _ {F : Foreign} where
  -- `old_state`; its jobs are those of the state
  abbrev pub orphans :
      StateRef F
      → List (Secret F)
      → List (CargoSpec F)
      → List (VmSpec F)
      → List (Resource F)
      → StateRef F
  orphans state old_secrets old_cargoes old_vms old_resources = record state {
    content = record (state.content) {
      secrets =
          Option.map (removed (λ s. s.name) (map secret_partial old_secrets)) state.content.secrets;
      cargoes =
          Option.map (removed (λ g. g.name) (map cargo_partial old_cargoes)) state.content.cargoes;
      virtual_machines =
          Option.map (removed (λ v. v.name) (map vm_partial old_vms))
            state.content.virtual_machines;
      resources =
          Option.map (removed (λ r. r.name) (map resource_partial old_resources))
            state.content.resources;
    };
  }

module _ {F : Foreign} {World : Type 0} (c : Client F World) where
  abbrev pub waiter_of : Text × Option EventActorKind → Effect World (Effect World (Unit {0}))
  waiter_of (key, none) = pure (pure tt)
  waiter_of (key, some kind) = wait_process_state c key kind (NativeEventAction.destroy ∷ [])

  -- an error of the deletion is printed, and the next name is taken
  abbrev pub after_delete : Effect World (Unit {0}) → Result (Unit {0}) → Effect World (Unit {0})
  after_delete waiter (err _) = pure tt
  after_delete waiter (ok _) = waiter

  -- the body of the loop
  unfoldable pub rm_one : RemoveArg → Option Text → Text → Effect World (Unit {0})
  rm_one arg namespace name = do
    waiter ← waiter_of (waiter_kind arg name namespace)
    λ w.
        let (r, w') = c.send (delete (object_name arg) name (get_query arg namespace)) w in
        after_delete waiter r w'

  unfoldable pub exec_rm : RemoveArg → List Text → Option Text → Effect World (Unit {0})
  exec_rm arg names namespace = for_each (rm_one arg namespace) names

  abbrev pub rm_each : RemoveArg → Option Text → Option (List Text) → Effect World (Unit {0})
  rm_each arg namespace none = pure tt
  rm_each arg namespace (some names) = ignoring (exec_rm arg names namespace)

  unfoldable pub state_remove : StateRef F → Effect World (Unit {0})
  state_remove state_file = do
    let namespace = namespace_of state_file
    rm_each job_arg none (Option.map (map (λ j. j.name)) state_file.content.jobs)
    rm_each cargo_arg (some namespace) (Option.map (map (λ g. g.name)) state_file.content.cargoes)
    rm_each vm_arg (some namespace)
        (Option.map (map (λ v. v.name)) state_file.content.virtual_machines)
    rm_each resource_arg none (Option.map (map (λ r. r.name)) state_file.content.resources)
    rm_each secret_arg none (Option.map (map (λ s. s.name)) state_file.content.secrets)

  unfoldable pub remove_orphans : StateRef F → Effect World (Unit {0})
  remove_orphans state = do
    let group = get_nanocl_group state
    old_secrets ← reading (c.list_secret group)
    old_cargoes ← reading (c.list_cargo group state.content.namespace)
    old_vms ← reading (c.list_vm group state.content.namespace)
    old_resources ← reading (c.list_resource group)
    state_remove (orphans state old_secrets old_cargoes old_vms old_resources)
