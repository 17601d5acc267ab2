-- ===== src/Engagement/Schema.antt =====
-- The rows that services/engagement_event_service.py reads and writes (models/entities.py), and its
-- results. Texts that are normalised are lists of code points.
use neutail.Base.{ℕ, String, Bool, Option, List, nat_eq, string_eq, pair_eq}
use neutail.Base.Table.{Table}

-- A row of `clickstream`, less the search and the dwell time.
pub record ClickstreamEvent : Type 0 where
  pub event_id : List ℕ
  pub customer_id : Option (List ℕ)
  pub event_datetime : Option ℕ
  pub session_id : Option (List ℕ)
  pub event_type : Option String
  pub sku : Option (List ℕ)
  pub device : Option String
  pub source : Option (List ℕ)

-- A row of `products` and of `inventory`, as far as they are read.
pub record Product : Type 0 where
  pub sku : List ℕ
  pub active : Option Bool
  pub brand_tier : Option (List ℕ)

pub record Inventory : Type 0 where
  pub sku : List ℕ
  pub available_qty : Option ℕ

-- `UpsellTrigger` with its metadata; the strength is in hundredths.
pub record UpsellTrigger : Type 0 where
  pub trigger_type : String
  pub source_agent : String
  pub sku : List ℕ
  pub strength : ℕ
  pub view_count : ℕ

-- The payload of the outbox event.
pub record Payload : Type 0 where
  pub customer_id : List ℕ
  pub session_id : List ℕ
  pub sku : List ℕ
  pub engagement_event_id : List ℕ
  pub view_count : ℕ
  pub trigger : UpsellTrigger

-- A row of `outbox_events`. Its aggregate type and schema version are constants.
pub record OutboxRow : Type 0 where
  pub outbox_id : List ℕ
  pub aggregate_id : List ℕ
  pub event_type : String
  pub payload_json : String
  pub trace_id : List ℕ
  pub causation_id : List ℕ
  pub correlation_id : List ℕ
  pub is_pending : Bool
  pub attempt_count : ℕ
  pub created_at : ℕ

pub data ReceiptStatus : Type 0 where
  processing completed : ReceiptStatus

-- A row of `engagement_event_receipts`.
pub record Receipt : Type 0 where
  pub receipt_id : List ℕ
  pub customer_id : List ℕ
  pub session_id : List ℕ
  pub idempotency_key : List ℕ
  pub fingerprint : List ℕ
  pub event_id : List ℕ
  pub sku : List ℕ
  pub engagement_count : ℕ
  pub premium_product : Bool
  pub trigger_json : Option String
  pub outbox_id : Option (List ℕ)
  pub status : ReceiptStatus
  pub response_json : Option String
  pub created_at : ℕ
  pub updated_at : ℕ

pub record Rows : Type 0 where
  pub clickstream : Table (List ℕ) ClickstreamEvent
  pub products : Table (List ℕ) Product
  pub inventory : List Inventory
  pub outbox : Table (List ℕ) OutboxRow
  pub receipts : Table (List ℕ) Receipt

-- `RecordedProductView`
pub record RecordedProductView (R : Type 0) : Type 0 where
  pub receipt_id : List ℕ
  pub event_id : List ℕ
  pub engagement_count : ℕ
  pub premium_product : Bool
  pub trigger : Option UpsellTrigger
  pub outbox_id : Option (List ℕ)
  pub replayed : Bool
  pub completed_response : Option R

-- The exceptions: `EngagementProductUnavailableError`, `EngagementIdempotencyConflictError`, `LookupError`,
-- `ValueError`, a key that is taken, and stored JSON that does not read.
pub data Error : Type 0 where
  unavailable conflict missing blank integrity bad_json : Error
