-- ===== src/Engagement.antt =====
-- services/engagement_event_service.py: a view of a product in the UI is recorded once, under a receipt,
-- together with the event for the context bus that the third view of a premium product makes.
pub mod Schema
pub mod Lookup
pub mod Keyed
pub mod Receipts
pub mod Replay
pub mod Third
mod Examples
use neutail.Base.{
  ℕ, zero, suc, ◌+◌, ◌-◌, ◌*◌, ◌/◌, ◌%◌, ◌≤◌, ◌<◌, String, ◌≡◌, refl, sym, ap, ◌∙◌, ◌≢◌, ◌↔◌, ◌⊎◌,
  inl, inr, Bool, true, false, not, ◌&&◌, ◌||◌, Option, none, some, List, [], ◌∷◌, ◌++◌, map, arith,
  ltb, leb, nat_beq, if◌then◌else◌, leb→le, le→leb, Bool-cases, Option-cases, is_some, or_default,
  Eq, ◌==◌, nat_eq, string_eq, pair_eq, beq_self, Outcome, ok, raised, ◌>>=◌, ◌>>◌, require,
  or_raise,
}
use neutail.Base.Json.{Json}
use neutail.Base.Lists.{find_first, select, length}
use neutail.Base.Table.{Table, get, put, rows}
use neutail.Base.Text.{Unicode, codes, codes_eq, strip, casefold}
use neutail.Engagement.Schema.{
  ClickstreamEvent, Product, Inventory, UpsellTrigger, Payload, OutboxRow, ReceiptStatus, Receipt,
  Rows, RecordedProductView, Error, processing, completed, unavailable, conflict, missing, blank,
  integrity, bad_json,
}

-- The arguments of `record_product_view`. The source is `none` if the metadata has no text for it.
pub record Request : Type 0 where
  pub customer_id : List ℕ
  pub session_id : List ℕ
  pub sku : List ℕ
  pub idempotency_key : List ℕ
  pub fingerprint : List ℕ
  pub trace_id : List ℕ
  pub source : Option (List ℕ)

-- The ids that uuid4 makes and the clock, at one call.
pub record Surroundings : Type 0 where
  pub event_id : List ℕ
  pub outbox_id : List ℕ
  pub now : ℕ

-- An insert, of a key that must be new.
abbrev pub insert : {V : Type 0} → List ℕ → V → Table (List ℕ) V → Outcome Error (Table (List ℕ) V)
insert k v t = if is_some (get k t) then raised integrity else ok (put k v t)

is_receipt_of : List ℕ → List ℕ → Receipt → Bool
is_receipt_of customer key r = (r.customer_id == customer) && (r.idempotency_key == key)

-- `_find_receipt`. The index on the customer and the key is unique, so the first row is the only one.
pub find_row : List ℕ → List ℕ → Rows → Option Receipt
unfolding is_receipt_of
find_row customer key db = find_first (is_receipt_of customer key) (rows db.receipts)

-- `_validate_fingerprint`
abbrev pub validate_fingerprint : Receipt → List ℕ → Outcome Error (Unit {0})
validate_fingerprint r fingerprint = require (r.fingerprint == fingerprint) conflict

-- A stored text, if it is there and not empty.
pub read_stored : {V : Type 0} → (String → Option V) → Option String → Outcome Error (Option V)
read_stored loads none = ok none
read_stored loads (some t) =
    if t == "" then ok none else or_raise (loads t) bad_json >>= λ v. ok (some v)

abbrev pub view_of :
    {R : Type 0} → Bool → Receipt → Option UpsellTrigger → Option R → RecordedProductView R
view_of replayed r trigger response = record {
  receipt_id = r.receipt_id;
  event_id = r.event_id;
  engagement_count = r.engagement_count;
  premium_product = r.premium_product;
  trigger = trigger;
  outbox_id = r.outbox_id;
  replayed = replayed;
  completed_response = response;
}

pub stored_response :
    {R : Type 0} ⦃j : Json R⦄ → ReceiptStatus → Option String → Outcome Error (Option R)
unfolding read_stored
stored_response processing t = ok none
stored_response ⦃j⦄ completed t = read_stored j.loads t

module _ {R : Type 0} ⦃j : Json R⦄ ⦃jt : Json UpsellTrigger⦄ where
  -- `_to_result`
  pub to_result : Bool → Receipt → Outcome Error (RecordedProductView R)
  unfolding stored_response read_stored
  to_result replayed r = do
    trigger ← read_stored jt.loads r.trigger_json
    response ← stored_response r.status r.response_json
    ok (view_of replayed r trigger response)

  replay : Rows → Receipt → List ℕ → Outcome Error (Rows × RecordedProductView R)
  unfolding to_result
  replay db r fingerprint = do
    tt ← validate_fingerprint r fingerprint
    result ← to_result true r
    ok (db, result)

  -- `find_receipt`
  pub find_receipt :
      List ℕ → List ℕ → List ℕ → Rows → Outcome Error (Option (RecordedProductView R))
  unfolding find_row replay
  find_receipt customer key fingerprint db = elim (find_row customer key db) [
    | none ↦ ok none
    | some r ↦ replay db r fingerprint >>= λ x. ok (some x.1)
  ]

trigger_text : ⦃jt : Json UpsellTrigger⦄ → Option UpsellTrigger → Option String
trigger_text none = none
trigger_text ⦃jt⦄ (some t) = some (jt.dumps t)

outbox_of : Surroundings → Option UpsellTrigger → Option (List ℕ)
outbox_of env none = none
outbox_of env (some t) = some env.outbox_id

module _ ⦃u : Unicode⦄ where
  -- `_normalize_identifier` and `_normalize_sku`
  abbrev pub required : List ℕ → Outcome Error (List ℕ)
  required value = if strip value == [] then raised blank else ok (strip value)

  -- `get_product`, whose `LookupError` is passed on as unavailable
  pub get_product : List ℕ → Table (List ℕ) Product → Outcome Error Product
  get_product sku products = required sku >>= λ k. or_raise (get k products) unavailable

  total_available : List ℕ → List Inventory → ℕ
  total_available sku [] = 0
  total_available sku (i ∷ rest) =
      let others = total_available sku rest in
      if i.sku == sku then or_default 0 i.available_qty + others else others

  -- `is_available`, for at least one piece
  is_available : List ℕ → List Inventory → Bool
  unfolding total_available
  is_available sku inventory =
      if strip sku == [] then false else leb 1 (total_available (strip sku) inventory)

  is_text : List ℕ → Option (List ℕ) → Bool
  is_text t none = false
  is_text t (some s) = s == t

  is_view_event : Option String → Bool
  is_view_event none = false
  is_view_event (some t) = t == "VIEW_PRODUCT"

  pub is_view_of : List ℕ → List ℕ → List ℕ → ClickstreamEvent → Bool
  unfolding is_text is_view_event
  is_view_of customer session sku e =
      is_text customer e.customer_id
      && is_text session e.session_id
      && is_text sku e.sku
      && is_view_event e.event_type

  -- `count_product_views`, for normalised ids
  pub views_of : List ℕ → List ℕ → List ℕ → Table (List ℕ) ClickstreamEvent → ℕ
  unfolding is_view_of
  views_of customer session sku t = length (select (is_view_of customer session sku) (rows t))

  -- The source of the event, or "UI".
  source_of : Option (List ℕ) → List ℕ
  source_of none = codes "UI"
  source_of (some s) = if strip s == [] then codes "UI" else strip s

  -- `BehaviorEvent`, which strips the texts.
  pub behavior_event : Surroundings → Request → Product → ClickstreamEvent
  unfolding source_of
  behavior_event env q p = record {
    event_id = env.event_id;
    customer_id = some (strip q.customer_id);
    event_datetime = some env.now;
    session_id = some (strip q.session_id);
    event_type = some "VIEW_PRODUCT";
    sku = some (strip p.sku);
    device = some "WEB";
    source = some (source_of q.source);
  }

  pub is_premium : Product → Bool
  is_premium p = casefold (strip (or_default [] p.brand_tier)) == codes "premium"

  abbrev pub high_engagement : Product → ℕ → UpsellTrigger
  high_engagement p count = record {
    trigger_type = "HIGH_PRODUCT_ENGAGEMENT";
    source_agent = "EngagementService";
    sku = strip p.sku;
    strength = 91;
    view_count = count;
  }

  -- The trigger of the `count`th view.
  pub trigger_of : Product → ℕ → Option UpsellTrigger
  trigger_of p count = if is_premium p && (count == 3) then some (high_engagement p count) else none

  module _ ⦃jp : Json Payload⦄ where
    abbrev pub outbox_row : Surroundings → Request → Product → UpsellTrigger → ℕ → OutboxRow
    outbox_row env q p trigger count = record {
      outbox_id = env.outbox_id;
      aggregate_id = q.customer_id;
      event_type = "HIGH_PRODUCT_ENGAGEMENT";
      payload_json = jp.dumps (record {
        customer_id = q.customer_id;
        session_id = q.session_id;
        sku = strip p.sku;
        engagement_event_id = env.event_id;
        view_count = count;
        trigger = trigger;
      });
      trace_id = q.trace_id;
      causation_id = env.event_id;
      correlation_id = q.trace_id;
      is_pending = true;
      attempt_count = 0;
      created_at = env.now;
    }

    pub add_outbox :
        Surroundings
        → Request
        → Product
        → Option UpsellTrigger
        → ℕ
        → Table (List ℕ) OutboxRow
        → Outcome Error (Table (List ℕ) OutboxRow)
    add_outbox env q p none count t = ok t
    add_outbox env q p (some trigger) count t =
        insert env.outbox_id (outbox_row env q p trigger count) t

    module _ ⦃jt : Json UpsellTrigger⦄ (receipt_id : List ℕ → List ℕ → List ℕ) where
      pub new_receipt : Surroundings → Request → Product → ℕ → Receipt
      unfolding trigger_text outbox_of
      new_receipt env q p count = record {
        receipt_id = receipt_id q.customer_id q.idempotency_key;
        customer_id = q.customer_id;
        session_id = q.session_id;
        idempotency_key = q.idempotency_key;
        fingerprint = q.fingerprint;
        event_id = env.event_id;
        sku = strip p.sku;
        engagement_count = count;
        premium_product = is_premium p;
        trigger_json = trigger_text (trigger_of p count);
        outbox_id = outbox_of env (trigger_of p count);
        status = processing;
        response_json = none;
        created_at = env.now;
        updated_at = env.now;
      }

      -- The event for the bus and the receipt of the `count`th view.
      store_view :
          Surroundings
          → Request
          → Product
          → Table (List ℕ) ClickstreamEvent
          → ℕ
          → Rows
          → Outcome Error (Rows × Receipt)
      unfolding add_outbox
      store_view env q p clickstream count db = do
        outbox ← add_outbox env q p (trigger_of p count) count db.outbox
        let r = new_receipt env q p count
        receipts ← insert r.receipt_id r db.receipts
        ok (record db { clickstream = clickstream; outbox = outbox; receipts = receipts }, r)

      -- The view of an available product.
      view_product : Surroundings → Request → Product → Rows → Outcome Error (Rows × Receipt)
      unfolding store_view
      view_product env q p db = do
        clickstream ← insert env.event_id (behavior_event env q p) db.clickstream
        customer ← required q.customer_id
        session ← required q.session_id
        sku ← required (strip p.sku)
        store_view env q p clickstream (views_of customer session sku clickstream) db

      -- The rows after a new view, with its receipt.
      pub add_view : Surroundings → Request → Rows → Outcome Error (Rows × Receipt)
      unfolding get_product is_available view_product
      add_view env q db = do
        p ← get_product q.sku db.products
        tt ←
            require (or_default false p.active && is_available (strip p.sku) db.inventory)
              unavailable
        view_product env q p db

      module _ {R : Type 0} ⦃j : Json R⦄ where
        pub record_new :
            Surroundings → Request → Rows → Outcome Error (Rows × RecordedProductView R)
        unfolding add_view to_result
        record_new env q db = do
          x ← add_view env q db
          result ← to_result false x.1
          ok (x.0, result)

        -- From what the scan for a receipt found.
        pub recorded :
            Surroundings
            → Request
            → Rows
            → Option Receipt
            → Outcome Error (Rows × RecordedProductView R)
        unfolding replay record_new
        recorded env q db (some r) = replay db r q.fingerprint
        recorded env q db none = record_new env q db

        pub record_product_view :
            Surroundings → Request → Rows → Outcome Error (Rows × RecordedProductView R)
        unfolding find_row recorded
        record_product_view env q db =
            recorded env q db (find_row q.customer_id q.idempotency_key db)

-- `complete`
pub complete : {R : Type 0} ⦃j : Json R⦄ → ℕ → List ℕ → R → Rows → Outcome Error Rows
complete ⦃j⦄ now id response db = do
  r ← or_raise (get id db.receipts) missing
  ok (record db {
    receipts =
        put id
          (record r {
            status = completed;
            response_json = some (j.dumps response);
            updated_at = now;
          })
          db.receipts;
  })
