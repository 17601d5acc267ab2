-- ===== src/Commerce/Examples.antt =====
-- A third purchase of a new, affluent customer, and the theorems at it.
use neutail.Bus.Schema.{OutboxEvent}
use text.Mathlib.TextEquality.{eq_iff}
use neutail.Commerce.Orders.{count_orders, counts, upper, idempotency_conflict, Error, build_order}
use mathlib.Core.Bool.{false≢true}
use neutail.Commerce.Segments.{Segment, ClassificationError, classify_values, Loyalty}
use neutail.Base.{
  ℕ, ◌≡◌, refl, true, false, none, some, [], ◌∷◌, nat_eq, string_eq, pair_eq, Outcome, ok, raised,
}
use neutail.Base.Json.{Json, ReadsBack}
use neutail.Base.Samples.{micro_real, ascii, ascii-IsUnicode}
use neutail.Base.Table.{get, put}
use neutail.Base.Text.{blank_out, casefold, split, join, is_blank}
use neutail.Commerce.Schema.{Customer, Order, Shop, Purchase, PurchaseResult}
use neutail.Commerce.Policy.{SegmentationPolicy, SegmentationOutcome, Change, apply_purchase_policy}
use neutail.Commerce.Loyalty.{apply_purchase_policy-IsApplied, IsApplied}
use neutail.Commerce.Replay.{process_purchase-replays, process_purchase-reuse}
use neutail.Commerce.{Surroundings, FreshIds, process_purchase, days}

abbrev alice : Customer
alice = record {
  affluence_band = some " affluent";
  loyalty_status = some "NEW";
  segment = some "Aspiring Loyalist";
  profile_version = some 4;
  updated_at = none;
}

abbrev old_order : Order ℕ
old_order = record {
  customer_id = "CUST001";
  order_datetime = days 100;
  channel = "WEB";
  subtotal_gbp = 10;
  shipping_gbp = 0;
  total_gbp = 10;
  payment_type = "CARD";
  status = "COMPLETED";
  source_event_id = "EVT-0";
  items = [];
}

abbrev shop : Shop ℕ
shop = record {
  customers = ("CUST001", alice) ∷ [];
  loyalty = [];
  products =
      ("SKU1", record { active = true; current_price_gbp = some 2_500_000; color = some "Navy" })
      ∷ [];
  orders = ("ORD-1", old_order) ∷ ("ORD-2", old_order) ∷ [];
  inbox = [];
  history = [];
  outbox = [];
}

abbrev third : Purchase
third = record {
  event_id = "EVT-3";
  event_type = "PURCHASE_COMPLETED";
  occurred_at = days 120;
  schema_version = 1;
  customer_id = "CUST001";
  order_id = "ORD-3";
  channel = "WEB";
  status = "COMPLETED";
  items =
      record { order_item_id = "I1"; sku = "SKU1"; quantity = 2; size = none; color = none } ∷ [];
}

abbrev standard : SegmentationPolicy
standard = record {
  purchase_window_days = 90;
  loyal_purchase_threshold = 3;
  version = "purchase-90d-v1";
}

abbrev world : Surroundings
world = record { canonical = λ e. e.order_id; sha256 = λ t. t; payload_json = λ p. p.new_segment }

abbrev ids : FreshIds
ids = record { history_id = "SEGH-1"; outbox_id = "OUT-1" }

abbrev result : PurchaseResult
result = record {
  event_id = "EVT-3";
  replayed = false;
  customer_id = "CUST001";
  order_id = "ORD-3";
  purchase_count_90d = 3;
  profile_version = 5;
  transition = record {
    previous_segment = some "Aspiring Loyalist";
    new_segment = "Prestige Champion";
    previous_loyalty_status = "New";
    new_loyalty_status = "Loyal";
    changed = true;
    changed_at = days 120;
    policy_version = "purchase-90d-v1";
  };
  points_balance = none;
  outbox_ids = "OUT-1" ∷ [];
}

-- A codec that knows this result.
instance abbrev result_json : Json PurchaseResult
result_json = record { dumps = λ r. "result"; loads = λ t. some result }

result-ReadsBack : ReadsBack result
result-ReadsBack = record { not_empty = λ e. false≢true ((eq_iff "result" "").1 e); reads = refl }

abbrev resulting_rows : Outcome Error (Shop ℕ × PurchaseResult) → Shop ℕ
resulting_rows (ok (db, r)) = db
resulting_rows (raised e) = shop

abbrev shop' : Shop ℕ
shop' = resulting_rows (process_purchase 500 standard world ids "t" third shop)

processes : process_purchase 500 standard world ids "t" third shop ≡ ok (shop', result)
unfolding process_purchase apply_purchase_policy build_order count_orders counts upper
    classify_values blank_out casefold split join is_blank get put
processes = refl

process_purchase-replays_example :
    process_purchase 900 standard world ids "u" third shop'
    ≡ ok (shop', record result { replayed = true })
process_purchase-replays_example =
    process_purchase-replays 500 900 standard standard world ids ids "t" "u" third shop shop' result
      result-ReadsBack processes

process_purchase-reuse_example :
    process_purchase 900 standard world ids "u" (record third { order_id = "ORD-4" }) shop'
    ≡ raised idempotency_conflict
process_purchase-reuse_example =
    process_purchase-reuse 500 900 standard world ids ids "t" "u" third
      (record third { order_id = "ORD-4" }) shop shop' result result-ReadsBack processes refl
      (λ e. false≢true ((eq_iff "ORD-3" "ORD-4").1 e))

abbrev change : Change
change = record {
  customer_id = "CUST001";
  purchase_count = 3;
  source_event_id = "EVT-3";
  trace_id = "t";
  changed_at = days 120;
  history_id = "SEGH-1";
  outbox_id = "OUT-1";
  payload_json = λ p. p.new_segment;
}

abbrev outcome : SegmentationOutcome
outcome = record { transition = result.transition; profile_version = 5; outbox_ids = "OUT-1" ∷ [] }

abbrev applied_rows : Outcome ClassificationError (Shop ℕ × SegmentationOutcome) → Shop ℕ
applied_rows (ok (db, r)) = db
applied_rows (raised e) = shop

abbrev applied : Shop ℕ
applied = applied_rows (apply_purchase_policy standard change alice shop)

applies : apply_purchase_policy standard change alice shop ≡ ok (applied, outcome)
unfolding apply_purchase_policy classify_values blank_out casefold split join is_blank get put
applies = refl

apply_purchase_policy-IsApplied_example :
    (customer' : Customer) × (before : Loyalty) × (after : Loyalty) × (segment : Segment)
    × (event : OutboxEvent) × IsApplied ℕ standard change alice customer' before after segment event
        applied outcome
apply_purchase_policy-IsApplied_example =
    apply_purchase_policy-IsApplied ascii-IsUnicode standard change alice shop applied outcome
      applies
