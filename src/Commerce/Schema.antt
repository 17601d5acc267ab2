-- ===== src/Commerce/Schema.antt =====
-- The rows that a purchase reads and writes (models/entities.py) and the values of models/events.py.
use neutail.Base.{ℕ, String, Bool, Option, List, nat_eq, string_eq, pair_eq}
use neutail.Base.Table.{Table}
use neutail.Bus.Schema.{OutboxEvent}

pub record Customer : Type 0 where
  pub affluence_band : Option String
  pub loyalty_status : Option String
  pub segment : Option String
  pub profile_version : Option ℕ
  pub updated_at : Option ℕ

pub record LoyaltyRow : Type 0 where
  pub tier : Option String
  pub points_balance : Option ℕ
  pub version : Option ℕ
  pub updated_at : Option ℕ

pub record Product (F : Type 0) : Type 0 where
  pub active : Bool
  pub current_price_gbp : Option F
  pub color : Option String

pub record OrderItem (F : Type 0) : Type 0 where
  pub order_item_id : String
  pub sku : String
  pub quantity : ℕ
  pub unit_price_gbp : F
  pub size : Option String
  pub color : Option String
  pub line_total_gbp : F

pub record Order (F : Type 0) : Type 0 where
  pub customer_id : String
  pub order_datetime : ℕ
  pub channel : String
  pub subtotal_gbp : F
  pub shipping_gbp : F
  pub total_gbp : F
  pub payment_type : String
  pub status : String
  pub source_event_id : String
  pub items : List (OrderItem F)

pub data InboxStatus : Type 0 where
  processing completed failed : InboxStatus

pub record Inbox : Type 0 where
  pub event_type : String
  pub schema_version : ℕ
  pub payload_json : String
  pub payload_hash : String
  pub status : InboxStatus
  pub attempt_count : ℕ
  pub result_json : Option String
  pub error_code : Option String
  pub received_at : ℕ
  pub updated_at : ℕ

-- `CustomerSegmentHistory`
pub record SegmentHistory : Type 0 where
  pub customer_id : String
  pub previous_segment : Option String
  pub new_segment : String
  pub previous_loyalty_status : String
  pub new_loyalty_status : String
  pub affluence_band : String
  pub purchase_count_90d : ℕ
  pub policy_version : String
  pub source_event_id : String
  pub changed_at : ℕ

pub record Shop (F : Type 0) : Type 0 where
  pub customers : Table String Customer
  pub loyalty : Table String LoyaltyRow
  pub products : Table String (Product F)
  pub orders : Table String (Order F)
  pub inbox : Table String Inbox
  pub history : Table String SegmentHistory
  pub outbox : Table String OutboxEvent

pub record SegmentTransition : Type 0 where
  pub previous_segment : Option String
  pub new_segment : String
  pub previous_loyalty_status : String
  pub new_loyalty_status : String
  pub changed : Bool
  pub changed_at : ℕ
  pub policy_version : String

pub record PurchaseItem : Type 0 where
  pub order_item_id : String
  pub sku : String
  pub quantity : ℕ
  pub size : Option String
  pub color : Option String

-- `PurchaseCompletedEvent` with its `data`
pub record Purchase : Type 0 where
  pub event_id : String
  pub event_type : String
  pub occurred_at : ℕ
  pub schema_version : ℕ
  pub customer_id : String
  pub order_id : String
  pub channel : String
  pub status : String
  pub items : List PurchaseItem

-- `PurchaseEventResult`, less the fields that are always null and the context that is added later
pub record PurchaseResult : Type 0 where
  pub event_id : String
  pub replayed : Bool
  pub customer_id : String
  pub order_id : String
  pub purchase_count_90d : ℕ
  pub profile_version : ℕ
  pub transition : SegmentTransition
  pub points_balance : Option ℕ
  pub outbox_ids : List String
