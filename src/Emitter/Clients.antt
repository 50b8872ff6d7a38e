-- ===== src/Emitter/Clients.antt =====
-- Which clients are left after a number of events.
use nanocl.Prelude.{
  ℕ, sym, suc, ◌+◌, ◌<◌, ◌≡◌, refl, ap, ap₂, ◌∙◌, subst, Text, Bool, true, false, ltb, Option, none,
  some, List, [], ◌∷◌, ◌++◌, length, is_empty, any, All, ◌⊎◌, arith, if◌then◌else◌,
}
use nanocl.Io.{Result, ok}
use nanocl.System.Event.{Event, EventCondition, meets}
use nanocl.Emitter.{
  RawEventSender, RawEventEmitter, conditions_of, cons_some, keep_client, send_all, emit, emit_send,
  emit_store, subscribe, emit_events,
}

-- How many of the events meet a condition of the list.
unfoldable pub matches : List EventCondition → List Event → ℕ
matches conditions [] = 0
matches conditions (e ∷ es) =
    let rest = matches conditions es in if any (λ c. meets c e) conditions then suc rest else rest

-- The client after the events: it goes with the event at which as many have met a condition as
-- there are conditions, and it never goes if there are none.
unfoldable pub settle :
    {Sender : Type 0} → List Event → RawEventSender Sender → Option (RawEventSender Sender)
settle es client =
    let conditions = conditions_of client.conditions in
    let total = client.met + matches conditions es in
    if is_empty conditions
    then some client
    else if ltb total (length conditions)
    then some (record client { met = total })
    else none

unfoldable pub settle_all :
    {Sender : Type 0} → List Event → List (RawEventSender Sender) → List (RawEventSender Sender)
settle_all es [] = []
settle_all es (client ∷ clients) = cons_some (settle es client) (settle_all es clients)

-- A client waits for at least one more event, or has no condition.
abbrev pub IsWaiting : {Sender : Type 0} → RawEventSender Sender → Type 0
IsWaiting client =
    let conditions = conditions_of client.conditions in
    (is_empty conditions ≡ true) ⊎ (client.met < length conditions)

module _ {Sender : Type 0} where
  -- One event, then the others.
  settle-cons :
      (e : Event) (es : List Event) (client : RawEventSender Sender)
      → IsWaiting client
      → settle (e ∷ es) client
        ≡ (elim (keep_client e client) [ none ↦ none | some client' ↦ settle es client' ])
  unfolding settle keep_client matches
  settle-cons e es client h = ground arith

  keep_client-IsWaiting :
      (e : Event) (client client' : RawEventSender Sender)
      → IsWaiting client
      → keep_client e client ≡ some client'
      → IsWaiting client'
  unfolding keep_client
  keep_client-IsWaiting e client client' h k = ground arith

  -- one round of `emit` over all clients, without the sends
  keep_all : Event → List (RawEventSender Sender) → List (RawEventSender Sender)
  keep_all e [] = []
  keep_all e (client ∷ clients) = cons_some (keep_client e client) (keep_all e clients)

  settle_all-cons_some :
      (es : List Event) (client : Option (RawEventSender Sender))
      (clients : List (RawEventSender Sender))
      → settle_all es (cons_some client clients)
        ≡ cons_some
            (elim client [ none ↦ none | some client' ↦ settle es client' ])
            (settle_all es clients)
  unfolding settle_all
  settle_all-cons_some es none clients = refl
  settle_all-cons_some es (some client) clients = refl

  settle_all-cons :
      (e : Event) (es : List Event) (clients : List (RawEventSender Sender))
      → All IsWaiting clients
      → settle_all (e ∷ es) clients ≡ settle_all es (keep_all e clients)
  unfolding settle_all keep_all
  settle_all-cons e es [] h = refl
  settle_all-cons e es (client ∷ clients) h =
      ap₂ cons_some (settle-cons e es client h.0) (settle_all-cons e es clients h.1)
      ∙ sym (settle_all-cons_some es (keep_client e client) (keep_all e clients))

  cons_some-IsWaiting :
      (client : Option (RawEventSender Sender)) (clients : List (RawEventSender Sender))
      → ((c : RawEventSender Sender) → client ≡ some c → IsWaiting c)
      → All IsWaiting clients
      → All IsWaiting (cons_some client clients)
  cons_some-IsWaiting none clients h hs = hs
  cons_some-IsWaiting (some c) clients h hs = (h c refl, hs)

  keep_all-IsWaiting :
      (e : Event) (clients : List (RawEventSender Sender))
      → All IsWaiting clients
      → All IsWaiting (keep_all e clients)
  unfolding keep_all
  keep_all-IsWaiting e [] h = tt
  keep_all-IsWaiting e (client ∷ clients) h =
      cons_some-IsWaiting (keep_client e client) (keep_all e clients)
        (λ c k. keep_client-IsWaiting e client c h.0 k) (keep_all-IsWaiting e clients h.1)

  settle_all-nil :
      (clients : List (RawEventSender Sender))
      → All IsWaiting clients
      → settle_all [] clients ≡ clients
  unfolding settle_all settle matches
  settle_all-nil [] h = refl
  settle_all-nil (client ∷ clients) h = ground (arith, settle_all-nil clients h.1)

module _ {Sender W : Type 0} (try_send : Sender → Text → W → Bool × W)
    (json : Event → Result Text) where
  clients-send_all :
      (msg : Text) (e : Event) (clients : List (RawEventSender Sender)) (w : W)
      → (send_all try_send json msg e clients w).0 ≡ keep_all e clients
  unfolding send_all keep_all
  clients-send_all msg e [] w = refl
  clients-send_all msg e (client ∷ clients) w =
      ap (cons_some (keep_client e client))
        (clients-send_all msg e clients (try_send client.sender msg w).1)

  emit_lem :
      (e : Event) (s : RawEventEmitter Sender) (w : W) {bytes : Text}
      → s.poisoned ≡ false
      → json e ≡ ok bytes
      → ((emit try_send json e s w).1 ≡ record s { clients = keep_all e s.clients })
        × ((emit try_send json e s w).0 ≡ ok tt)
  unfolding emit
  emit_lem e s w {bytes} p j = ground (arith, clients-send_all (bytes ++ 10 ∷ []) e s.clients w)

  -- After any events the clients left are those of before, each as `settle` says, in their order:
  -- with no condition a client stays; with n > 0 conditions it stays until n events have each met
  -- at least one of them. For a state whose lock is not poisoned, whose clients are all waiting, and
  -- events that can be written as JSON.
  pub clients-emit_events :
      (es : List Event) (s : RawEventEmitter Sender) (w : W)
      → s.poisoned ≡ false
      → ((e : Event) → (bytes : Text) × (json e ≡ ok bytes))
      → All IsWaiting s.clients
      → (emit_events try_send json es s w).0.clients ≡ settle_all es s.clients
  unfolding emit_events
  clients-emit_events [] s w p j h = sym (settle_all-nil s.clients h)
  clients-emit_events (e ∷ es) s w p j h =
      let s' : RawEventEmitter Sender = record s { clients = keep_all e s.clients } in
      subst
        (λ s''.
          (emit_events try_send json es s'' (emit try_send json e s w).2).0.clients
          ≡ settle_all (e ∷ es) s.clients)
        (sym (emit_lem e s w p (j e).1).0)
        (clients-emit_events es s' (emit try_send json e s w).2 p j
            (keep_all-IsWaiting e s.clients h)
          ∙ sym (settle_all-cons e es s.clients h))

  -- A subscription that comes between the two critical sections of `emit` is lost: what the second
  -- one stores is what it would have stored without the subscription, which had succeeded. For a lock that
  -- is not poisoned and an event that can be written as JSON.
  pub emit_store-subscribe :
      (e : Event) (s : RawEventEmitter Sender) (w : W) (tx : Sender)
      (condition : Option (List EventCondition)) {bytes : Text}
      → s.poisoned ≡ false
      → json e ≡ ok bytes
      → ((subscribe try_send json tx condition s).0 ≡ ok tt)
        × ((emit_store try_send json
              (emit_send try_send json e s w).0
              (subscribe try_send json tx condition s).1).1.clients
            ≡ (emit_store try_send json (emit_send try_send json e s w).0 s).1.clients)
  unfolding emit_send emit_store subscribe
  emit_store-subscribe e s w tx condition p j = ground arith
