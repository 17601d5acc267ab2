-- ===== src/Engagement/Examples.antt =====
-- Tests of the engagement events, and the theorems at the third view of a premium product.
use neutail.Base.{
  ◌⊎◌, ℕ, ◌+◌, ◌≡◌, refl, ◌≢◌, Bool, true, false, none, some, List, [], ◌∷◌, ◌++◌, nat_eq,
  string_eq, pair_eq, ok, raised,
}
use mathlib.Core.Bool.{false≢true}
use neutail.Base.Json.{Json, ReadsBack}
use neutail.Base.Samples.{ascii, flag_json, flag-IsJson}
use neutail.Base.Table.{get, put}
use neutail.Base.Text.{codes, codes_eq, strip, casefold}
use neutail.Engagement.Schema.{
  Product, UpsellTrigger, Payload, Receipt, Rows, RecordedProductView, conflict, completed,
}
use neutail.Engagement.{
  Request, Surroundings, record_product_view, find_row, is_receipt_of, behavior_event,
  high_engagement, add_outbox, outbox_row, get_product, is_available, total_available, source_of,
  is_premium, trigger_of, trigger_text, outbox_of, new_receipt, store_view, view_product, add_view,
  record_new, recorded, replay, to_result, stored_response, read_stored, views_of, is_view_of,
  is_text, is_view_event, complete,
}
use neutail.Engagement.Replay.{Later, record_product_view-replays}
use neutail.Engagement.Third.{Triggered, views, record_product_view-Triggered}

abbrev coat : Product
coat = record { sku = codes "SKU9"; active = some true; brand_tier = some (codes "Premium") }

-- A codec of the one trigger that is stored here, and one that writes payloads.
instance abbrev trigger_json : Json UpsellTrigger
trigger_json = record { dumps = λ t. "trigger"; loads = λ t. some (high_engagement coat 3) }

instance abbrev payload_json : Json Payload
payload_json = record { dumps = λ p. "payload"; loads = λ t. none }

abbrev receipt_id : List ℕ → List ℕ → List ℕ
receipt_id customer key = customer ++ b':' ∷ key

abbrev view : Request
view = record {
  customer_id = codes "C1";
  session_id = codes "S1";
  sku = codes " SKU9 ";
  idempotency_key = codes "k3";
  fingerprint = codes "f";
  trace_id = codes "t";
  source = none;
}

abbrev first_env : Surroundings
first_env = record { event_id = codes "EVT-1"; outbox_id = codes "OUT-1"; now = 1 }

abbrev second_env : Surroundings
second_env = record { event_id = codes "EVT-2"; outbox_id = codes "OUT-2"; now = 2 }

abbrev third_env : Surroundings
third_env = record { event_id = codes "EVT-3"; outbox_id = codes "OUT-3"; now = 3 }

-- Two views of the coat so far.
abbrev viewed_twice : Rows
viewed_twice = record {
  clickstream =
      (codes "EVT-1", behavior_event first_env view coat)
      ∷ (codes "EVT-2", behavior_event second_env view coat)
      ∷ [];
  products = (codes "SKU9", coat) ∷ [];
  inventory = record { sku = codes "SKU9"; available_qty = some 2 } ∷ [];
  outbox = [];
  receipts = [];
}

abbrev third_receipt : Receipt
third_receipt = new_receipt receipt_id third_env view coat 3

abbrev viewed_thrice : Rows
viewed_thrice = record viewed_twice {
  clickstream = put (codes "EVT-3") (behavior_event third_env view coat) viewed_twice.clickstream;
  outbox = (codes "OUT-3", outbox_row third_env view coat (high_engagement coat 3) 3) ∷ [];
  receipts = (codes "C1:k3", third_receipt) ∷ [];
}

abbrev third_view : RecordedProductView Bool
third_view = record {
  receipt_id = codes "C1:k3";
  event_id = codes "EVT-3";
  engagement_count = 3;
  premium_product = true;
  trigger = some (high_engagement coat 3);
  outbox_id = some (codes "OUT-3");
  replayed = false;
  completed_response = none;
}

records :
    record_product_view receipt_id third_env view viewed_twice ≡ ok (viewed_thrice, third_view)
unfolding record_product_view recorded record_new replay to_result stored_response read_stored
    find_row is_receipt_of add_view view_product store_view get_product is_available total_available
    add_outbox views_of is_view_of is_text is_view_event behavior_event source_of is_premium
    trigger_of trigger_text outbox_of new_receipt get put strip casefold
records = refl

has_coat :
    (p : Product)
    → get (strip (codes " SKU9 ")) viewed_twice.products ≡ some p
    → ReadsBack (high_engagement p 3)
unfolding get strip
has_coat p h =
    let is : p ≡ coat = cc in
    rw is
      (record { not_empty = λ e. false≢true ((string_eq.beq_iff "trigger" "").1 e); reads = refl })

is_new : find_row (codes "C1") (codes "k3") viewed_twice ≡ none
unfolding find_row
is_new = refl

record_product_view-Triggered_example :
    (p : Product) × (get (strip (codes " SKU9 ")) viewed_twice.products ≡ some p)
    × (3 ≡ views view p viewed_twice.clickstream + 1)
    × (views view p viewed_thrice.clickstream ≡ views view p viewed_twice.clickstream + 1)
    × Triggered receipt_id third_env view p
        (views view p viewed_twice.clickstream)
        viewed_twice
        viewed_thrice
        third_view
record_product_view-Triggered_example =
    record_product_view-Triggered receipt_id third_env view viewed_twice viewed_thrice third_view
      has_coat is_new records

abbrev after_complete : Rows
after_complete = record viewed_thrice {
  receipts =
      (
        codes "C1:k3",
        record third_receipt { status = completed; response_json = some "true"; updated_at = 9 },
      )
      ∷ [];
}

completes : complete {R = Bool} 9 (codes "C1:k3") true viewed_thrice ≡ ok after_complete
unfolding complete get put
completes = refl

record_product_view-replays_example :
    ((codes "f" ≡ codes "f")
      × (record_product_view receipt_id first_env view after_complete
          ≡ ok (
            after_complete,
            record third_view { replayed = true; completed_response = some true },
          )))
    ⊎ ((codes "f" ≢ codes "f")
        × (record_product_view receipt_id {R = Bool} first_env view after_complete
            ≡ raised conflict))
record_product_view-replays_example =
    record_product_view-replays receipt_id flag-IsJson third_env first_env view view third_view
      viewed_twice viewed_thrice after_complete tt records
      (Later.finished 9 (codes "C1:k3") true Later.at_once completes) refl refl
