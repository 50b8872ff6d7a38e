-- ===== src/Tests/Emitter.antt =====
-- A stream with one client that waits for two events and one that follows all.
use nanocl.Prelude.{
  ℕ, Text, codes, Bool, true, none, some, List, [], ◌∷◌, ◌++◌, ◌≡◌, refl, inl, inr, arith, any,
  match_text, ◌=ₜ◌, decide,
}
use nanocl.Io.{Result, ok}
use nanocl.System.Action
use nanocl.System.Event
use nanocl.System.Event.{Event, EventCondition, EventKind, EventActorKind}
use nanocl.Emitter.{
  RawEventSender, RawEventEmitter, emit, emit_send, emit_store, subscribe, emit_events, send_all,
  keep_client,
}
use nanocl.Emitter.Clients.{settle_all, clients-emit_events, emit_store-subscribe}

-- channels that never fill up: the messages sent, with the sender's number
abbrev record_send : ℕ → Text → List (ℕ × Text) → Bool × List (ℕ × Text)
record_send sender msg sent = (true, sent ++ (sender, msg) ∷ [])

abbrev json : Event → Result Text
json e = ok e.action

abbrev started : Event
started = record {
  key = codes "1";
  created_at = 0;
  expires_at = 10;
  reporting_node = codes "node";
  reporting_controller = codes "nanocl.io/core";
  kind = EventKind.normal;
  action = codes "start";
  reason = codes "state_sync";
  note = none;
  actor =
      some (record {
        key = some (codes "web.global");
        kind = EventActorKind.cargo;
        attributes = none;
      });
  related = none;
  metadata = none;
}

abbrev on_start : EventCondition
on_start = record {
  actor_key = some (codes "web.global");
  actor_kind = some EventActorKind.cargo;
  related_key = none;
  related_kind = none;
  kind = EventKind.normal ∷ [];
  action = Action.NativeEventAction.start ∷ [];
}

abbrev waiting : RawEventSender ℕ
waiting = record { sender = 0; conditions = some (on_start ∷ on_start ∷ []); met = 0 }

abbrev following : RawEventSender ℕ
following = record { sender = 1; conditions = none; met = 0 }

abbrev emitter : RawEventEmitter ℕ
emitter = record { poisoned = Bool.false; clients = waiting ∷ following ∷ [] }

two_events :
    (emit_events record_send json (started ∷ started ∷ []) emitter []).0.clients ≡ following ∷ []
unfolding emit_events emit send_all keep_client any Event.meets Action.from_str match_text ◌=ₜ◌
    decide
two_events = refl

clients-emit_events_example :
    (emit_events record_send json (started ∷ started ∷ []) emitter []).0.clients
    ≡ settle_all (started ∷ started ∷ []) (waiting ∷ following ∷ [])
clients-emit_events_example =
    clients-emit_events record_send json (started ∷ started ∷ []) emitter [] refl
      (λ e. (e.action, refl)) (inr (omega arith), (inl refl, tt))

abbrev broken : RawEventEmitter ℕ
broken = record emitter { poisoned = true }

emit_store-subscribe_example :
    ((subscribe record_send json 2 none emitter).0 ≡ ok tt)
    × ((emit_store record_send json
          (emit_send record_send json started emitter []).0
          (subscribe record_send json 2 none emitter).1).1.clients
        ≡ (emit_store record_send json
            (emit_send record_send json started emitter []).0
            emitter).1.clients)
emit_store-subscribe_example =
    emit_store-subscribe record_send json started emitter [] 2 none {bytes = codes "start"} refl
      refl
