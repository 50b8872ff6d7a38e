-- ===== src/Emitter.antt =====
-- bin/nanocld/src/models/raw_emitter.rs: the clients that follow the event stream.
-- The channels are tokio's: a sender and `try_send` on it are parameters, and so is the JSON form
-- of an event. `clients` is what the mutex guards; it is poisoned once a holder has panicked.
pub mod Clients
use nanocl.Prelude.{
  ℕ, ◌+◌, Text, codes, Bool, true, false, ◌==◌, Option, none, some, List, [], ◌∷◌, ◌++◌, length,
  is_empty, any, unwrap_or, if◌then◌else◌,
}
use nanocl.Io.{Result, ok, err, with_context, ErrorKind, ◌>>=◌}
use nanocl.System.Event.{Event, EventCondition, meets}

-- `RawEventSender`: the channel's end, the conditions, and how many events have met one.
pub record RawEventSender (Sender : Type 0) : Type 0 where
  pub sender : Sender
  pub conditions : Option (List EventCondition)
  pub met : ℕ

pub record RawEventEmitter (Sender : Type 0) : Type 0 where
  pub poisoned : Bool
  pub clients : List (RawEventSender Sender)

abbrev pub conditions_of : Option (List EventCondition) → List EventCondition
conditions_of o = unwrap_or o []

-- One round of the loop of `emit`, after the send: the client with its count, unless the count has
-- reached the number of conditions.
unfoldable pub keep_client :
    {Sender : Type 0} → Event → RawEventSender Sender → Option (RawEventSender Sender)
keep_client e client =
    let conditions = conditions_of client.conditions in
    let met = if any (λ c. meets c e) conditions then client.met + 1 else client.met in
    if is_empty conditions
    then some client
    else if met == length conditions
    then none
    else some (record client { met = met })

abbrev pub cons_some {ℓ} : {A : Type ℓ} → Option A → List A → List A
cons_some none xs = xs
cons_some (some a) xs = a ∷ xs

module _ {Sender W : Type 0} (try_send : Sender → Text → W → Bool × W)
    (json : Event → Result Text) where
  unfoldable pub try_to_bytes : Event → Result Text
  try_to_bytes e = do bytes ← json e; ok (bytes ++ 10 ∷ [])

  -- `inner.lock()`, whose error becomes an `IoError` with the given context
  lock : Text → RawEventEmitter Sender → Result (List (RawEventSender Sender))
  lock context s =
      if s.poisoned
      then err (
          with_context ErrorKind.interrupted context
            (codes "poisoned lock: another task failed inside"))
      else ok s.clients

  -- Every client is sent the message, whether the send works or not.
  unfoldable pub send_all :
      Text → Event → List (RawEventSender Sender) → W → List (RawEventSender Sender) × W
  send_all msg e [] w = ([], w)
  send_all msg e (client ∷ clients) w =
      let (sent, w') = try_send client.sender msg w in
      let (rest, w'') = send_all msg e clients w' in (cons_some (keep_client e client) rest, w'')

  -- the message and the clients that it goes to
  prepare : Event → RawEventEmitter Sender → Result (List (RawEventSender Sender) × Text)
  prepare e s = do clients ← lock (codes "Mutex") s; msg ← try_to_bytes e; ok (clients, msg)

  -- The first critical section of `emit` and its loop: the new list is not stored yet.
  unfoldable pub emit_send :
      Event → RawEventEmitter Sender → W → Result (List (RawEventSender Sender)) × W
  unfolding prepare lock try_to_bytes
  emit_send e s w = elim (prepare e s) [
    | err x ↦ (err x, w)
    | ok p ↦ let (kept, w') = send_all p.1 e p.0 w in (ok kept, w')
  ]

  -- The second critical section of `emit`.
  unfoldable pub emit_store :
      Result (List (RawEventSender Sender))
      → RawEventEmitter Sender
      → Result (Unit {0}) × RawEventEmitter Sender
  unfolding lock
  emit_store (err x) s = (err x, s)
  emit_store (ok kept) s = elim (lock (codes "Mutex") s) [
    | err x ↦ (err x, s)
    | ok _ ↦ (ok tt, record s { clients = kept })
  ]

  unfoldable pub emit :
      Event → RawEventEmitter Sender → W → Result (Unit {0}) × RawEventEmitter Sender × W
  unfolding emit_send emit_store
  emit e s w =
      let (kept, w') = emit_send e s w in let (result, s') = emit_store kept s in (result, s', w')

  -- A client that cannot take an empty message is dropped.
  alive_clients : List (RawEventSender Sender) → W → List (RawEventSender Sender) × W
  alive_clients [] w = ([], w)
  alive_clients (client ∷ clients) w =
      let (sent, w') = try_send client.sender [] w in
      let (rest, w'') = alive_clients clients w' in (if sent then client ∷ rest else rest, w'')

  unfoldable pub check_connection :
      RawEventEmitter Sender → W → Result (Unit {0}) × RawEventEmitter Sender × W
  unfolding alive_clients lock
  check_connection s w = elim (lock (codes "RawEmitterMutex") s) [
    | err x ↦ (err x, s, w)
    | ok clients ↦
        let (alive, w') = alive_clients clients w in (ok tt, record s { clients = alive }, w')
  ]

  -- `RawEventSender::new` over a new channel's sender, and its push under the lock
  unfoldable pub subscribe :
      Sender
      → Option (List EventCondition)
      → RawEventEmitter Sender
      → Result (Unit {0}) × RawEventEmitter Sender
  unfolding lock
  subscribe tx condition s = elim (lock (codes "Mutex") s) [
    | err x ↦ (err x, s)
    | ok clients ↦
        let client : RawEventSender Sender = record {
          sender = tx;
          conditions = condition;
          met = 0;
        } in
        (ok tt, record s { clients = clients ++ client ∷ [] })
  ]

  -- The event loop hands the events over one after the other; a failed `emit` is only logged.
  unfoldable pub emit_events : List Event → RawEventEmitter Sender → W → RawEventEmitter Sender × W
  emit_events [] s w = (s, w)
  emit_events (e ∷ es) s w = let (result, s', w') = emit e s w in emit_events es s' w'
