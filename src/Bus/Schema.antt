-- ===== src/Bus/Schema.antt =====
-- The outbox and its deliveries (models/entities.py) with the lookups of
-- repositories/event_repository.py.
use neutail.Base.{
  ℕ, zero, suc, String, Bool, true, false, ◌&&◌, ◌||◌, Option, List, [], ◌∷◌, ltb, nat_beq,
  if◌then◌else◌, nat_eq, string_eq, pair_eq,
}
use Prim.Native.String.{compare}
use text.Mathlib.Text.{is_le}
use neutail.Base.Lists.{select}
use neutail.Base.Table.{Table, rows}

pub data OutboxStatus : Type 0 where
  pending published : OutboxStatus

pub data DeliveryStatus : Type 0 where
  processing completed failed : DeliveryStatus

-- A row of `outbox_events`.
pub record OutboxEvent : Type 0 where
  pub outbox_id : String
  pub event_type : String
  pub aggregate_id : String
  pub payload_json : String
  pub trace_id : String
  pub causation_id : String
  pub correlation_id : String
  pub status : OutboxStatus
  pub attempt_count : ℕ
  pub created_at : ℕ
  pub published_at : Option ℕ

-- A row of `outbox_deliveries`.
pub record Delivery : Type 0 where
  pub status : DeliveryStatus
  pub attempt_count : ℕ
  pub response_json : Option String
  pub last_error : Option String
  pub updated_at : ℕ

-- The key of a delivery: the outbox id and the subscriber's name.
abbrev pub DeliveryKey : Type 0
DeliveryKey = String × String

pub record Rows : Type 0 where
  pub outbox : Table String OutboxEvent
  pub deliveries : Table DeliveryKey Delivery

abbrev pub is_pending : OutboxStatus → Bool
is_pending pending = true
is_pending published = false

abbrev pub is_completed : DeliveryStatus → Bool
is_completed completed = true
is_completed _ = false

-- `ORDER BY created_at, outbox_id`
abbrev comes_before : OutboxEvent → OutboxEvent → Bool
comes_before a b =
    ltb a.created_at b.created_at
    || (nat_beq a.created_at b.created_at && is_le (compare a.outbox_id b.outbox_id))

insert_by_age : OutboxEvent → List OutboxEvent → List OutboxEvent
insert_by_age a [] = a ∷ []
insert_by_age a (b ∷ rest) = if comes_before a b then a ∷ b ∷ rest else b ∷ insert_by_age a rest

sort_by_age : List OutboxEvent → List OutboxEvent
unfolding insert_by_age
sort_by_age [] = []
sort_by_age (a ∷ rest) = insert_by_age a (sort_by_age rest)

-- `LIMIT`
take : {A : Type 0} → ℕ → List A → List A
take zero l = []
take (suc n) [] = []
take (suc n) (x ∷ l) = x ∷ take n l

unfoldable pub pending_outbox : ℕ → Rows → List OutboxEvent
unfolding sort_by_age take
pending_outbox limit db =
    take limit (sort_by_age (select (λ e. is_pending e.status) (rows db.outbox)))
