-- ===== src/Decisions/Schema.antt =====
-- The rows of the upsell decisions and of the customer's answers (models/entities.py), the values that
-- services/upsell_decision_service.py passes on, and its lookups.
use Prim.Native.String.{◌++◌}
use neutail.Base.{
  ℕ, String, Bool, true, false, not, ◌&&◌, Option, none, some, ◌==◌, if◌then◌else◌, string_eq,
  Outcome, ok, raised, is_some,
}
use neutail.Base.Lists.{find_first}
use neutail.Base.Table.{Table, get, rows}

pub data DecisionStatus : Type 0 where
  pending accepted declined dismissed : DecisionStatus

pub data EventStatus : Type 0 where
  processing completed failed : EventStatus

-- A row of `upsell_decisions`.
pub record Decision : Type 0 where
  pub decision_id : String
  pub customer_id : String
  pub session_id : String
  pub offer_type : String
  pub trigger_type : String
  pub status : DecisionStatus
  pub result_json : String
  pub source_event_id : Option String
  pub trace_id : Option String
  pub created_at : ℕ
  pub updated_at : ℕ
  pub resolved_at : Option ℕ

-- A row of `upsell_decision_events`.
pub record DecisionEvent : Type 0 where
  pub decision_id : String
  pub fingerprint : String
  pub event_type : String
  pub status : EventStatus
  pub response_json : Option String
  pub created_at : ℕ
  pub updated_at : ℕ

pub record Rows : Type 0 where
  pub decisions : Table String Decision
  pub events : Table String DecisionEvent

-- The exceptions, `integrity` for the unique index on `source_event_id`.
pub data Error : Type 0 where
  not_found conflict idempotency_conflict key_error bad_json integrity : Error

-- `UpsellDecisionRecord`
pub record DecisionRecord (V : Type 0) : Type 0 where
  pub decision_id : String
  pub customer_id : String
  pub session_id : String
  pub offer_type : String
  pub trigger_type : String
  pub status : DecisionStatus
  pub result : V
  pub source_event_id : Option String
  pub trace_id : Option String
  pub created_at : ℕ

-- What `record_decision` looks up in the result's dict: `offer` is there if the entry is a dict, and
-- holds its `"offer_type"` if it has one; so for `trigger`. `whole` is the dict itself.
pub record ResultDict (V : Type 0) : Type 0 where
  pub status : Option String
  pub offer : Option (Option String)
  pub trigger : Option (Option String)
  pub decision_id : Option String
  pub whole : V

abbrev pub is_pending : DecisionStatus → Bool
is_pending pending = true
is_pending _ = false

abbrev pub is_completed : EventStatus → Bool
is_completed completed = true
is_completed _ = false

abbrev pub is_processing : EventStatus → Bool
is_processing processing = true
is_processing _ = false

-- An optional text where Python tests its truth.
abbrev pub truthy : Option String → Bool
truthy none = false
truthy (some s) = not (s == "")

-- `x == y` of a nullable column and a text
abbrev pub holds_text : String → Option String → Bool
holds_text s none = false
holds_text s (some t) = t == s

abbrev pub terminal_status : String → Option DecisionStatus
terminal_status event_type =
    if event_type == "OFFER_ACCEPTED"
    then some accepted
    else if event_type == "OFFER_DECLINED"
    then some declined
    else if event_type == "OFFER_DISMISSED"
    then some dismissed
    else none

-- `"|".join(...)`
abbrev pub fingerprint_of : String → String → String → String → String
fingerprint_of decision_id customer_id session_id event_type =
    decision_id ++ "|" ++ customer_id ++ "|" ++ session_id ++ "|" ++ event_type

unfoldable pub by_source : Table String Decision → String → Option Decision
by_source table source = find_first (λ d. holds_text source d.source_event_id) (rows table)

-- The entity that `record_decision` updates: by its id, else by the event that it came from.
unfoldable pub stored_entity : Rows → String → Option String → Option Decision
unfolding by_source
stored_entity db id none = get id db.decisions
stored_entity db id (some source) = elim (get id db.decisions) [
  | some d ↦ some d
  | none ↦ if source == "" then none else by_source db.decisions source
]

-- The unique index on `source_event_id` at commit: no other row may hold the one that is written.
unfoldable pub source_is_free : Table String Decision → Decision → Bool
source_is_free table d = elim d.source_event_id [
  | none ↦ true
  | some source ↦ not (
      is_some (
        find_first
          (λ o. holds_text source o.source_event_id && not (o.decision_id == d.decision_id))
          (rows table)))
]

-- The columns that an update fills only where they were empty.
unfoldable pub fill : Option String → Option String → Option String
fill given old = if truthy given && not (is_some old) then given else old

-- `entity is None or entity.customer_id != customer_id or entity.session_id != session_id`
unfoldable pub owned : String → String → Option Decision → Outcome Error Decision
owned customer_id session_id none = raised not_found
owned customer_id session_id (some d) =
    if d.customer_id == customer_id && d.session_id == session_id then ok d else raised not_found

-- The stored response of a completed event, if there is one.
unfoldable pub stored_response : DecisionEvent → Option String
stored_response e =
    if is_completed e.status && truthy e.response_json then e.response_json else none
