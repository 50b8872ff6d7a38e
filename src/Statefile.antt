-- ===== src/Statefile.antt =====
-- The Statefile of crates/nanocl_stubs/src/statefile.rs, the references to it of
-- bin/nanocl/src/models/state.rs, and the calls of the client that applying one makes.
pub mod Objects
pub mod Wait
pub mod Parse
pub mod Order
pub mod Nested
pub mod Apply
pub mod Remove
pub mod Exec
pub mod Unchanged
pub mod Logged
pub mod Names
pub mod Removed
pub mod Orphans
use nanocl.Prelude.{ℕ, Text, Bool, Option, List}
use nanocl.Io.{Result}
use nanocl.System.Event.{Event, EventCondition}
use nanocl.Statefile.Objects.{
  Foreign, Secret, SecretPartial, SecretUpdate, Resource, ResourcePartial, ResourceUpdate,
  CargoSpec, CargoSpecPartial, VmSpec, VmSpecPartial, VmSpecUpdate, JobPartial,
}

pub record CargoDeleteQuery : Type 0 where
  pub namespace : Option Text
  pub force : Option Bool

-- A URL and a path are texts.
pub data StateRoot : Type 0 where
  root_none : StateRoot
  root_url root_file : Text → StateRoot

module _ (F : Foreign) where
  pub data SubStateValue : Type 0 where
    number : F.Float → SubStateValue
    string : Text → SubStateValue
    boolean : Bool → SubStateValue

  pub record SubStateArg : Type 0 where
    pub name : Text
    pub value : SubStateValue

  pub data SubState : Type 0 where
    path : Text → SubState
    -- a `SubStateDef`: its path and its arguments
    definition : Text → Option (List SubStateArg) → SubState

  -- without the version of the interface and the declared arguments
  pub record Statefile : Type 0 where
    pub sub_states : Option (List SubState)
    pub group : Option Text
    pub namespace : Option Text
    pub secrets : Option (List (SecretPartial F))
    pub resources : Option (List (ResourcePartial F))
    pub cargoes : Option (List (CargoSpecPartial F))
    pub virtual_machines : Option (List (VmSpecPartial F))
    pub jobs : Option (List (JobPartial F))

  pub record StateRef : Type 0 where
    -- `data`
    pub content : Statefile
    pub root : StateRoot
    pub location : Text

  -- A call of the client that changes what the daemon keeps.
  pub data Request : Type 0 where
    create_secret : SecretPartial F → Request
    patch_secret : Text → SecretUpdate F → Request
    create_job : JobPartial F → Request
    delete_job : Text → Request
    create_cargo : CargoSpecPartial F → Option Text → Request
    put_cargo : Text → CargoSpecPartial F → Option Text → Request
    create_vm : VmSpecPartial F → Option Text → Request
    patch_vm : Text → VmSpecUpdate F → Option Text → Request
    create_resource : ResourcePartial F → Request
    put_resource : Text → ResourceUpdate F → Request
    -- the kind, the name and the namespace
    start_process : Text → Text → Option Text → Request
    -- `send_delete` on the path of the objects and the name
    delete : Text → Text → Option CargoDeleteQuery → Request

  -- `NanocldClient`. An error is what `?` turns it into. A stream of events is a name for it;
  -- `events` are those that arrive on it until it ends.
  pub record Client (World : Type 0) : Type 0 where
    pub send : Request → World → Result (Unit {0}) × World
    pub watch_events : List EventCondition → World → Result ℕ × World
    pub events : ℕ → World → List (Result Event) × World
    pub inspect_secret : Text → World → Result (Secret F)
    -- only whether it succeeds is read
    pub inspect_job : Text → World → Result (Unit {0})
    -- the specification of the inspected cargo, machine
    pub inspect_cargo : Text → Option Text → World → Result (CargoSpec F)
    pub inspect_vm : Text → Option Text → World → Result (VmSpec F)
    pub inspect_resource : Text → World → Result (Resource F)
    -- the objects whose metadata has the group, in a namespace if one is given
    pub list_secret : Text → World → Result (List (Secret F))
    pub list_cargo : Text → Option Text → World → Result (List (CargoSpec F))
    pub list_vm : Text → Option Text → World → Result (List (VmSpec F))
    pub list_resource : Text → World → Result (List (Resource F))
