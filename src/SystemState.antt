-- ===== src/SystemState.antt =====
-- bin/nanocld/src/system/system_state.rs: how the daemon emits events. An emission in the
-- background (`spawn_emit_event`) is taken to run where it is spawned.
pub mod Sent
use nanocl.Prelude.{Text, codes, Option, none, some, ◌∷◌, ◌++◌, unwrap_or}
use nanocl.Io.{Result, ok, err, with_context, ErrorKind}
use nanocl.System.Action
use nanocl.System.Action.{NativeEventAction}
use nanocl.System.Event.{Event, EventActor, EventKind, EventPartial, Value, actor_kind_to_string}
use nanocl.Effect.{Effect, pure, raise, ignoring, ◌>>=◌}
use nanocl.Backend.{Backend}

-- vars::CONTROLLER_NAME
abbrev pub controller_name : Text
controller_name = codes "nanocl.io/core"

module _ {World : Type 0} (b : Backend World) where
  abbrev send_result : Option Text → Result (Unit {0})
  send_result none = ok tt
  send_result (some m) = err (with_context ErrorKind.interrupted (codes "Event Emitter") m)

  abbrev send_event : Event → Effect World (Unit {0})
  send_event ev w = (send_result (b.send ev w).0, (b.send ev w).1)

  unfoldable pub emit_event : EventPartial → Effect World (Unit {0})
  emit_event new_ev = do ev ← b.store_event new_ev; send_event ev

  -- a failure is only logged
  unfoldable pub spawn_emit_event : EventPartial → Effect World (Unit {0})
  spawn_emit_event event = ignoring (emit_event event)

  abbrev pub event_of :
      EventActor → NativeEventAction → EventKind → Text → Option Text → Option Value → EventPartial
  event_of actor action kind reason note metadata = record {
    reporting_controller = controller_name;
    reporting_node = b.hostname;
    kind = kind;
    action = Action.to_string action;
    related = none;
    reason = reason;
    note = note;
    metadata = metadata;
    actor = some actor;
  }

  unfoldable pub emit_action_sync :
      EventActor
      → NativeEventAction
      → EventKind
      → Text
      → Option Text
      → Option Value
      → Effect World (Unit {0})
  emit_action_sync actor action kind reason note metadata =
      ignoring (emit_event (event_of actor action kind reason note metadata))

  unfoldable pub emit_action :
      EventActor
      → NativeEventAction
      → EventKind
      → Text
      → Option Text
      → Option Value
      → Effect World (Unit {0})
  emit_action actor action kind reason note metadata =
      spawn_emit_event (event_of actor action kind reason note metadata)

  unfoldable pub emit_error_native_action :
      EventActor → NativeEventAction → Option Text → Effect World (Unit {0})
  unfolding emit_action
  emit_error_native_action actor action note =
      emit_action actor action EventKind.error (codes "state_sync") note none

  -- `"{kind} {key}"`
  abbrev pub describe : EventActor → Text
  describe actor = actor_kind_to_string actor.kind ++ 32 ∷ unwrap_or actor.key (codes "")

  unfoldable pub emit_normal_native_action_sync :
      EventActor → NativeEventAction → Effect World (Unit {0})
  unfolding emit_action_sync
  emit_normal_native_action_sync actor action =
      emit_action_sync actor action EventKind.normal (codes "state_sync") (some (describe actor))
        none

-- The events of those two calls.
module _ {World : Type 0} (b : Backend World) where
  abbrev pub normal_event : EventActor → NativeEventAction → EventPartial
  normal_event actor action =
      event_of b actor action EventKind.normal (codes "state_sync") (some (describe b actor)) none

  abbrev pub error_event : EventActor → NativeEventAction → Option Text → EventPartial
  error_event actor action note =
      event_of b actor action EventKind.error (codes "state_sync") note none
