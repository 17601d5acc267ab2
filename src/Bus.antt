-- ===== src/Bus.antt =====
-- services/context_bus.py: the dispatcher that delivers outbox events to named subscribers. Each write
-- is a transaction of its own, so the rows written before an exception stay.
pub mod Schema
pub mod Delivery
pub mod Keeps
pub mod Through
pub mod Replay
pub mod Failure
pub mod Liveness
mod Examples
use neutail.Base.{
  ℕ, zero, suc, ◌+◌, ◌-◌, ◌*◌, ◌/◌, ◌%◌, ◌≤◌, ◌<◌, String, ◌≡◌, refl, sym, ap, ◌∙◌, ◌≢◌, ◌↔◌, ◌⊎◌,
  inl, inr, Bool, true, false, not, ◌&&◌, ◌||◌, Option, none, some, List, [], ◌∷◌, ◌++◌, map, arith,
  ltb, leb, nat_beq, if◌then◌else◌, leb→le, le→leb, Bool-cases, Option-cases, is_some, or_default,
  Eq, ◌==◌, nat_eq, string_eq, pair_eq, beq_self, Outcome, ok, raised, ◌>>=◌, ◌>>◌, require,
  or_raise,
}
use neutail.Base.Json.{Json}
use neutail.Base.Lists.{any, unique}
use neutail.Base.Table.{Table, get, put}
use Schema.{OutboxEvent, DeliveryKey, pending_outbox, Rows}
use Delivery.{
  Error, no_subscriber, bad_json, already_registered, handler_raised, record_event_attempt,
  claim_delivery, fail_delivery, complete_delivery, completed_delivery, mark_published,
}

-- `ContextBusEvent`
pub record Event (V : Type 0) : Type 0 where
  pub outbox_id : String
  pub event_type : String
  pub aggregate_id : String
  pub payload : V
  pub trace_id : String
  pub causation_id : String
  pub correlation_id : String

-- The rows, and all else that the handlers read and write.
pub record State (W : Type 0) : Type 0 where
  pub db : Rows
  pub world : W

-- A subscriber's handler: its response or the name of the exception that it raises, and what it has
-- changed by then. It does not write the bus's own rows.
abbrev pub Handler : Type 0 → Type 0 → Type 0
Handler V W = Event V → W → Outcome String V × W

abbrev pub Subscriber : Type 0 → Type 0 → Type 0
Subscriber V W = String × Handler V W

abbrev pub Subscribers : Type 0 → Type 0 → Type 0
Subscribers V W = Table String (List (Subscriber V W))

-- `responses`, by subscriber
abbrev pub Responses : Type 0 → Type 0
Responses V = Table String V

abbrev pub subscribers_of : {V W : Type 0} → String → Subscribers V W → List (Subscriber V W)
subscribers_of event_type subs = or_default [] (get event_type subs)

unfoldable pub subscribe :
    {V W : Type 0}
    → String
    → String
    → Handler V W
    → Subscribers V W
    → Outcome Error (Subscribers V W)
subscribe event_type name handler subs =
    let list = subscribers_of event_type subs in
    if any (λ s. s.0 == name) list
    then raised already_registered
    else ok (put event_type (list ++ (name, handler) ∷ []) subs)

-- The rows of the ids that there are.
existing : List String → Rows → List OutboxEvent
existing [] db = []
existing (id ∷ rest) db =
    let others = existing rest db in elim (get id db.outbox) [ none ↦ others | some e ↦ e ∷ others ]

-- The rows that `_load_events` selects: the pending ones, or those of the given ids.
selected : Option (List String) → ℕ → Rows → List OutboxEvent
unfolding existing
selected none limit db = pending_outbox limit db
selected (some ids) limit db = existing (unique ids) db

module _ {V : Type 0} ⦃j : Json V⦄ where
  load_event : OutboxEvent → Outcome Error (Event V)
  load_event e = do
    payload ← or_raise (j.loads e.payload_json) bad_json
    ok (record {
      outbox_id = e.outbox_id;
      event_type = e.event_type;
      aggregate_id = e.aggregate_id;
      payload = payload;
      trace_id = e.trace_id;
      causation_id = e.causation_id;
      correlation_id = e.correlation_id;
    })

  load_all : List OutboxEvent → Outcome Error (List (Event V))
  unfolding load_event
  load_all [] = ok []
  load_all (e ∷ rest) = do event ← load_event e; events ← load_all rest; ok (event ∷ events)

  module _ {W : Type 0} where
    -- What is written behind the call of a handler: the failure, or the response.
    pub settle : ℕ → DeliveryKey → Rows → Outcome String V × W → Outcome Error V × State W
    settle now key db (raised e, world) =
        (raised (handler_raised e), record { db = fail_delivery now key e db; world = world })
    settle now key db (ok v, world) = elim (complete_delivery now key v db) [
      | raised e ↦ (raised e, record { db = db; world = world })
      | ok db' ↦ (ok v, record { db = db'; world = world })
    ]

    -- One subscriber without a completed delivery: the claim, the call, and what it came to.
    pub attempt : ℕ → Event V → Subscriber V W → State W → Outcome Error V × State W
    unfolding settle
    attempt now event (name, handler) s =
        let key : DeliveryKey = (event.outbox_id, name) in
        settle now key (claim_delivery now key s.db) (handler event s.world)

    -- Behind an attempt: on with the response, or out with the exception.
    pub go_on :
        (Responses V → State W → Outcome Error (Responses V) × State W)
        → String
        → Responses V
        → Outcome Error V × State W
        → Outcome Error (Responses V) × State W
    go_on continue name responses (raised e, s) = (raised e, s)
    go_on continue name responses (ok v, s) = continue (put name v responses) s

    -- One round of the loop: a completed delivery is not attempted again.
    pub round :
        ℕ
        → Event V
        → Subscriber V W
        → (Responses V → State W → Outcome Error (Responses V) × State W)
        → Responses V
        → State W
        → Outcome Error (Option V)
        → Outcome Error (Responses V) × State W
    unfolding go_on
    round now event sub continue responses s (raised e) = (raised e, s)
    round now event sub continue responses s (ok (some v)) = continue (put sub.0 v responses) s
    round now event sub continue responses s (ok none) =
        go_on continue sub.0 responses (attempt now event sub s)

    -- The loop over the subscribers.
    pub deliver :
        ℕ
        → Event V
        → List (Subscriber V W)
        → Responses V
        → State W
        → Outcome Error (Responses V) × State W
    unfolding round
    deliver now event [] responses s = (ok responses, s)
    deliver now event (sub ∷ rest) responses s =
        round now event sub (deliver now event rest) responses s
          (completed_delivery (event.outbox_id, sub.0) s.db)

    pub publish :
        ℕ
        → Event V
        → List (Subscriber V W)
        → Outcome Error (Responses V) × State W
        → Outcome Error (Responses V) × State W
    publish now event subs (raised e, s) = (raised e, s)
    publish now event subs (ok responses, s) =
        elim (mark_published now event.outbox_id (map (λ sub. sub.0) subs) s.db) [
          | raised e ↦ (raised e, s)
          | ok db ↦ (ok responses, record s { db = db })
        ]

    -- `_dispatch_event`, for the subscribers of the event's type
    pub dispatch_to :
        ℕ → List (Subscriber V W) → Event V → State W → Outcome Error (Responses V) × State W
    unfolding publish
    dispatch_to now [] event s = (raised no_subscriber, s)
    dispatch_to now (sub ∷ rest) event s =
        let subs = sub ∷ rest in
        let s' = record s { db = record_event_attempt event.outbox_id s.db } in
        publish now event subs (deliver now event subs [] s')

    unfoldable pub dispatch_event :
        ℕ → Subscribers V W → Event V → State W → Outcome Error (Responses V) × State W
    dispatch_event now subs event = dispatch_to now (subscribers_of event.event_type subs) event

    -- The loop of `dispatch`: with `raise_errors` the first failure ends it, else it is passed over.
    dispatch_all :
        ℕ
        → Subscribers V W
        → Bool
        → List (Event V)
        → Table String (Responses V)
        → State W
        → Outcome Error (Table String (Responses V)) × State W
    dispatch_all now subs raise_errors [] results s = (ok results, s)
    dispatch_all now subs raise_errors (event ∷ rest) results s =
        let (result, s') = dispatch_event now subs event s in
        elim result [
          | ok responses ↦
              dispatch_all now subs raise_errors rest (put event.outbox_id responses results) s'
          | raised e ↦ elim raise_errors [
            | true ↦ (raised e, s')
            | false ↦ dispatch_all now subs raise_errors rest results s'
          ]
        ]

    unfoldable pub dispatch :
        ℕ
        → Subscribers V W
        → Option (List String)
        → ℕ
        → Bool
        → State W
        → Outcome Error (Table String (Responses V)) × State W
    unfolding dispatch_all load_all selected
    dispatch now subs ids limit raise_errors s = elim (load_all (selected ids limit s.db)) [
      | raised e ↦ (raised e, s)
      | ok events ↦ dispatch_all now subs raise_errors events [] s
    ]
