-- ===== src/Commerce.antt =====
-- services/commerce_event_service.py: a purchase event in one transaction. The order, the segment, the
-- outbox row and the inbox row are all written, or the call raises and no row is.
pub mod Schema
pub mod Segments
pub mod Policy
pub mod Orders
pub mod Replay
pub mod Loyalty
mod Examples
use neutail.Commerce.Policy.{ChangePayload}
use Orders.{
  Error, idempotency_conflict, already_processing, customer_not_found, bad_json, unclassified,
  build_order, count_orders,
}
use neutail.Commerce.Schema.{InboxStatus}
use neutail.Base.{
  ◌>>◌, ◌>>=◌, ℕ, ◌-◌, ◌*◌, String, true, false, not, Option, none, some, if◌then◌else◌, is_some,
  ◌==◌, nat_eq, string_eq, pair_eq, Outcome, ok, raised, require, or_raise,
}
use neutail.Base.Json.{Json}
use neutail.Base.Real.{Real, zero_real}
use neutail.Base.Table.{rows, get, put}
use neutail.Base.Text.{Unicode}
use Schema.{Inbox, Shop, Purchase, PurchaseResult}
use Segments.{ClassificationError}
use Policy.{SegmentationPolicy, apply_purchase_policy}

-- What the service takes from outside its own code. `canonical` is the event's canonical JSON text and
-- `sha256` its digest; `payload_json` is the text of the payload of the outbox.
pub record Surroundings : Type 0 where
  pub canonical : Purchase → String
  pub sha256 : String → String
  pub payload_json : ChangePayload → String

-- The ids that `uuid4` gives in one call.
pub record FreshIds : Type 0 where
  pub history_id : String
  pub outbox_id : String

-- `timedelta(days=n)`, in microseconds
abbrev pub days : ℕ → ℕ
days n = n * 86_400_000_000

abbrev pub lift {ℓ} : {A : Type ℓ} → Outcome ClassificationError A → Outcome Error A
lift (ok a) = ok a
lift (raised e) = raised (unclassified e)

-- The stored result of a completed event, if there is one.
pub stored_result : Inbox → Option String
stored_result i = elim i.status [
  | InboxStatus.completed ↦ elim i.result_json [
    | none ↦ none
    | some t ↦ if t == "" then none else some t
  ]
  | _ ↦ none
]

pub claimed_inbox : ℕ → Surroundings → Purchase → Inbox
claimed_inbox now world event = record {
  event_type = event.event_type;
  schema_version = event.schema_version;
  payload_json = world.canonical event;
  payload_hash = world.sha256 (world.canonical event);
  status = InboxStatus.processing;
  attempt_count = 1;
  result_json = none;
  error_code = none;
  received_at = now;
  updated_at = now;
}

module _ {F : Type 0} ⦃r : Real F⦄ ⦃u : Unicode⦄ ⦃j : Json PurchaseResult⦄ where
  -- The event's own part of the transaction, behind the inbox.
  pub perform :
      ℕ
      → SegmentationPolicy
      → Surroundings
      → FreshIds
      → String
      → Purchase
      → Shop F
      → Outcome Error (Shop F × PurchaseResult)
  unfolding build_order count_orders
  perform now policy world ids trace_id event db = do
    customer ← or_raise (get event.customer_id db.customers) customer_not_found
    require (not (is_some (get event.order_id db.orders))) idempotency_conflict
    order ← build_order event db
    let db₁ = record db { orders = put event.order_id order db.orders }
    let since = event.occurred_at - days policy.purchase_window_days
    let count = count_orders event.customer_id since event.occurred_at (rows db₁.orders)
    (db₂, segmentation) ← lift (
        apply_purchase_policy policy
          (record {
            customer_id = event.customer_id;
            purchase_count = count;
            source_event_id = event.event_id;
            trace_id = trace_id;
            changed_at = event.occurred_at;
            history_id = ids.history_id;
            outbox_id = ids.outbox_id;
            payload_json = world.payload_json;
          })
          customer db₁)
    ok (
      db₂,
      record {
        event_id = event.event_id;
        replayed = false;
        customer_id = event.customer_id;
        order_id = event.order_id;
        purchase_count_90d = count;
        profile_version = segmentation.profile_version;
        transition = segmentation.transition;
        points_balance = elim (get event.customer_id db₂.loyalty) [
          | none ↦ none
          | some l ↦ l.points_balance
        ];
        outbox_ids = segmentation.outbox_ids;
      },
    )

  pub process_new :
      ℕ
      → SegmentationPolicy
      → Surroundings
      → FreshIds
      → String
      → Purchase
      → Shop F
      → Outcome Error (Shop F × PurchaseResult)
  unfolding perform claimed_inbox
  process_new now policy world ids trace_id event db = do
    let inbox = claimed_inbox now world event
    let db₁ = record db { inbox = put event.event_id inbox db.inbox }
    (db₂, result) ← perform now policy world ids trace_id event db₁
    let inbox' = record inbox {
      status = InboxStatus.completed;
      result_json = some (j.dumps result);
      updated_at = now;
    }
    ok (record db₂ { inbox = put event.event_id inbox' db₂.inbox }, result)

  pub replay : Surroundings → Purchase → Inbox → Shop F → Outcome Error (Shop F × PurchaseResult)
  unfolding stored_result
  replay world event existing db =
      if not (existing.payload_hash == world.sha256 (world.canonical event))
      then raised idempotency_conflict
      else elim (stored_result existing) [
        | none ↦ raised already_processing
        | some text ↦ (do
          result ← or_raise (j.loads text) bad_json
          ok (db, record result { replayed = true }))
      ]

  pub process_with :
      ℕ
      → SegmentationPolicy
      → Surroundings
      → FreshIds
      → String
      → Purchase
      → Shop F
      → Option Inbox
      → Outcome Error (Shop F × PurchaseResult)
  unfolding process_new replay
  process_with now policy world ids trace_id event db none =
      process_new now policy world ids trace_id event db
  process_with now policy world ids trace_id event db (some existing) =
      replay world event existing db

  pub process_purchase :
      ℕ
      → SegmentationPolicy
      → Surroundings
      → FreshIds
      → String
      → Purchase
      → Shop F
      → Outcome Error (Shop F × PurchaseResult)
  unfolding process_with
  process_purchase now policy world ids trace_id event db =
      process_with now policy world ids trace_id event db (get event.event_id db.inbox)
