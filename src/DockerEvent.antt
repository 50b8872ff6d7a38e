-- ===== src/DockerEvent.antt =====
-- bin/nanocld/src/system/docker_event.rs: what the daemon does when Docker reports an event of a
-- container. The message is Docker's; what the daemon reads of it is modelled.
pub mod Observes
use nanocl.Prelude.{
  Text, codes, ◌=ₜ◌, starts_with, Bool, true, false, not, ◌&&◌, ◌||◌, Option, none, some, List, [],
  ◌∷◌, ◌++◌, map, unwrap_or, is_none, if◌then◌else◌,
}
use nanocl.Io.{Result, ok}
use nanocl.System.Status
use nanocl.System.Status.{ObjPsStatusKind}
use nanocl.System.Action
use nanocl.System.Action.{NativeEventAction}
use nanocl.System.Event.{
  EventActor, EventActorKind, EventKind, EventPartial, Value, string, cargo, vm, job,
}
use nanocl.Workload.{cargo_actor, vm_actor}
use nanocl.Effect.{Effect, pure, reading, ignoring, ◌>>=◌, ◌>>◌}
use nanocl.Backend.{Backend, delete_process, update_process}
use nanocl.Status.Table.{update_actual_status}
use nanocl.SystemState.{spawn_emit_event, emit_error_native_action, controller_name}

pub data EventMessageType : Type 0 where
  empty container other : EventMessageType

pub record MessageActor : Type 0 where
  pub id : Option Text
  pub attributes : Option (List (Text × Text))

pub record EventMessage : Type 0 where
  pub typ : Option EventMessageType
  pub action : Option Text
  pub actor : Option MessageActor

-- `attributes.get(key)`
unfoldable pub get : List (Text × Text) → Text → Option Text
get [] key = none
get ((k, v) ∷ attributes) key = let rest = get attributes key in if k =ₜ key then some v else rest

abbrev is_container : Option EventMessageType → Bool
is_container (some container) = true
is_container _ = false

abbrev no_actor : MessageActor
no_actor = record { id = none; attributes = none }

abbrev pub attributes_of : EventMessage → List (Text × Text)
attributes_of event = unwrap_or (unwrap_or event.actor no_actor).attributes []

abbrev with_kind : EventActorKind → Option Text → Option (EventActorKind × Text)
with_kind kind none = none
with_kind kind (some key) = some (kind, key)

abbrev kind_and_key : List (Text × Text) → Option Text → Option (EventActorKind × Text)
kind_and_key attributes none = none
kind_and_key attributes (some kind) =
    if kind =ₜ codes "cargo"
    then with_kind cargo (get attributes (codes "io.nanocl.c"))
    else if kind =ₜ codes "vm"
    then with_kind vm (get attributes (codes "io.nanocl.v"))
    else if kind =ₜ codes "job"
    then with_kind job (get attributes (codes "io.nanocl.j"))
    else none

-- the object whose container the event is about, as the early returns find it
unfoldable pub target : EventMessage → Option (EventActorKind × Text)
target event =
    let attributes = attributes_of event in
    if not (is_container event.typ)
    then none
    else if is_none (get attributes (codes "io.nanocl"))
    then none
    else kind_and_key attributes (get attributes (codes "io.nanocl.kind"))

module _ {World : Type 0} (b : Backend World) where
  abbrev pub process_event :
      EventActorKind → Text → Text → List (Text × Text) → Text → Text → EventPartial
  process_event kind kind_key name attributes docker_action action = record {
    reporting_controller = controller_name;
    reporting_node = b.hostname;
    kind = EventKind.normal;
    action = action;
    related = some (record { key = some kind_key; kind = kind; attributes = none });
    reason = codes "state_sync";
    note = some (codes "process " ++ (name ++ 32 ∷ docker_action));
    metadata = none;
    actor = some (record {
      key = some name;
      kind = EventActorKind.process;
      attributes = some (map (λ a. (a.0, string a.1)) attributes);
    });
  }

  -- what a `start` reports of an object of this kind that has this actual status
  unfoldable pub started : EventActorKind → Text → Text → Effect World (Unit {0})
  started cargo kind_key status =
      if not (status =ₜ Status.to_string ObjPsStatusKind.start)
      then update_actual_status b kind_key ObjPsStatusKind.start
      else pure tt
  started vm kind_key status =
      if not (status =ₜ Status.to_string ObjPsStatusKind.start)
      then update_actual_status b kind_key ObjPsStatusKind.start
      else pure tt
  started _ kind_key status = pure tt

  unfoldable pub on_start : EventActorKind → Text → Effect World (Unit {0})
  on_start kind kind_key = do
    actual_status ← reading (b.read_status kind_key)
    started kind kind_key actual_status.actual

  abbrev pub died : Text → Option Text
  died name = some (codes "process " ++ (name ++ codes " die but should be alive"))

  -- what a `die` reports of an object of this kind that has this status wanted
  unfoldable pub failed_unless_stopped :
      EventActorKind → Text → Text → Text → Effect World (Unit {0})
  failed_unless_stopped cargo kind_key name status =
      if not (status =ₜ Status.to_string ObjPsStatusKind.stop)
      then (do
        update_actual_status b kind_key ObjPsStatusKind.fail
        item ← reading (b.read_cargo kind_key)
        emit_error_native_action b (cargo_actor item) NativeEventAction.die (died name))
      else pure tt
  failed_unless_stopped vm kind_key name status =
      if not (status =ₜ Status.to_string ObjPsStatusKind.stop)
      then (do
        update_actual_status b kind_key ObjPsStatusKind.fail
        item ← reading (b.read_vm kind_key)
        emit_error_native_action b (vm_actor item) NativeEventAction.die (died name))
      else pure tt
  failed_unless_stopped _ kind_key name status = pure tt

  unfoldable pub on_die : EventActorKind → Text → Text → Effect World (Unit {0})
  on_die kind kind_key name =
      if not (starts_with (codes "tmp-") name) && not (starts_with (codes "init-") name)
      then (do
        actual_status ← reading (b.read_status kind_key)
        failed_unless_stopped kind kind_key name actual_status.wanted)
      else pure tt

  -- what follows the match: the event, and the process's row brought up to date
  unfoldable pub sync : EventPartial → Text → Text → Effect World (Unit {0})
  sync event id name = do
    spawn_emit_event b event
    instance ← reading (b.inspect_container id)
    (λ w. b.write (update_process id (b.now w) name instance) w)

  -- the `match action`, with the event for an action given
  unfoldable pub take_action :
      EventActorKind → Text → Text → Text → Text → (Text → EventPartial) → Effect World (Unit {0})
  take_action kind kind_key id name action event =
      if action =ₜ codes "start"
      then on_start kind kind_key
        >> sync (event (Action.to_string NativeEventAction.destroy)) id name
      else if action =ₜ codes "die"
      then on_die kind kind_key name >> sync (event action) id name
      else if action =ₜ codes "destroy"
      then spawn_emit_event b (event (Action.to_string NativeEventAction.destroy))
        >> ignoring (b.write (delete_process id))
      else if action =ₜ codes "create"
      then spawn_emit_event b (event (Action.to_string NativeEventAction.create))
      else sync (event action) id name

  abbrev for_target : EventMessage → Option (EventActorKind × Text) → Effect World (Unit {0})
  for_target event none = pure tt
  for_target event (some (kind, kind_key)) =
      let actor = unwrap_or event.actor no_actor in
      let attributes = attributes_of event in
      let action = unwrap_or event.action [] in
      let id = unwrap_or actor.id [] in
      let name = unwrap_or (get attributes (codes "name")) [] in
      take_action kind kind_key id name action (process_event kind kind_key name attributes action)

  unfoldable pub exec_docker : EventMessage → Effect World (Unit {0})
  exec_docker event = for_target event (target event)
