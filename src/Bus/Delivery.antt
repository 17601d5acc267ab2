-- ===== src/Bus/Delivery.antt =====
-- The writes of services/context_bus.py to the outbox and its deliveries, one transaction each.
use neutail.Base.{
  ℕ, ◌+◌, String, Bool, false, Option, none, some, List, if◌then◌else◌, nat_eq, string_eq, pair_eq,
  Outcome, ok, raised, ◌>>=◌, or_raise,
}
use neutail.Base.Json.{Json}
use neutail.Base.Lists.{all}
use neutail.Base.Table.{get, put}
use neutail.Bus.Schema.{
  Delivery, DeliveryKey, published, processing, completed, failed, is_pending, is_completed, Rows,
}

-- The exceptions of the bus, and those of a handler by the name of their class.
pub data Error : Type 0 where
  no_subscriber delivery_lost event_lost bad_json already_registered : Error
  handler_raised : String → Error

unfoldable pub record_event_attempt : String → Rows → Rows
record_event_attempt id db = elim (get id db.outbox) [
  | none ↦ db
  | some e ↦
      if is_pending e.status
      then record db {
        outbox = put id (record e { attempt_count = e.attempt_count + 1 }) db.outbox;
      }
      else db
]

-- A claim, in the event's row of this subscriber.
pub claimed_delivery : ℕ → Option Delivery → Delivery
claimed_delivery now none = record {
  status = processing;
  attempt_count = 1;
  response_json = none;
  last_error = none;
  updated_at = now;
}
claimed_delivery now (some d) = record d {
  status = processing;
  attempt_count = d.attempt_count + 1;
  last_error = none;
  updated_at = now;
}

unfoldable pub claim_delivery : ℕ → DeliveryKey → Rows → Rows
unfolding claimed_delivery
claim_delivery now key db = record db {
  deliveries = put key (claimed_delivery now (get key db.deliveries)) db.deliveries;
}

unfoldable pub fail_delivery : ℕ → DeliveryKey → String → Rows → Rows
fail_delivery now key name db = elim (get key db.deliveries) [
  | none ↦ db
  | some d ↦ record db {
    deliveries =
        put key (record d { status = failed; last_error = some name; updated_at = now })
          db.deliveries;
  }
]

-- Whether the subscriber has a delivery in state COMPLETED.
abbrev pub has_completed : String → String → Rows → Bool
has_completed id name db = elim (get (id, name) db.deliveries) [
  | none ↦ false
  | some d ↦ is_completed d.status
]

unfoldable pub mark_published : ℕ → String → List String → Rows → Outcome Error Rows
mark_published now id expected db = elim (get id db.outbox) [
  | none ↦ raised event_lost
  | some e ↦
      if all (λ name. has_completed id name db) expected
      then ok (record db {
        outbox = put id (record e { status = published; published_at = some now }) db.outbox;
      })
      else ok db
]

module _ {V : Type 0} ⦃j : Json V⦄ where
  unfoldable pub completed_delivery : DeliveryKey → Rows → Outcome Error (Option V)
  completed_delivery key db = elim (get key db.deliveries) [
    | none ↦ ok none
    | some d ↦
        if is_completed d.status
        then elim d.response_json [
          | none ↦ ok none
          | some text ↦ (do v ← or_raise (j.loads text) bad_json; ok (some v))
        ]
        else ok none
  ]

  unfoldable pub complete_delivery : ℕ → DeliveryKey → V → Rows → Outcome Error Rows
  complete_delivery now key v db = elim (get key db.deliveries) [
    | none ↦ raised delivery_lost
    | some d ↦ ok (record db {
      deliveries =
          put key
            (record d {
              status = completed;
              response_json = some (j.dumps v);
              last_error = none;
              updated_at = now;
            })
            db.deliveries;
    })
  ]
