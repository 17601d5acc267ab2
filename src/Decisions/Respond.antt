-- ===== src/Decisions/Respond.antt =====
-- `record_upsell_decision_event` of api/upsell.py: the endpoint that claims the answer, has the tool
-- record it, completes it, and aborts it when any of this raises. The tool behind the MCP client is a
-- parameter that acts on the rest of the world: it records the event or raises.
use neutail.Base.{Option, Outcome, ℕ, String, Bool, none, some, ok, raised, if◌then◌else◌}
use neutail.Base.Json.{Json}
use neutail.Decisions.Schema.{
  Rows, DecisionRecord, Error, not_found, conflict, idempotency_conflict,
}
use neutail.Decisions.{claim_decision_event, complete_decision_event, abort_decision_event}

-- `UpsellEventInput`
pub record ToolEvent : Type 0 where
  pub customer_id : String
  pub session_id : String
  pub offer_type : String
  pub event_type : String
  pub trigger_type : String
  pub timestamp : ℕ

-- What the endpoint needs of its surroundings: the tool call, which acts on the rest of the world `W` and is
-- `true` where it does not raise, and the response that it builds for a decision and an event type.
pub record Surroundings (W V : Type 0) : Type 0 where
  pub call_tool : ToolEvent → W → W × Bool
  pub response_of : String → String → V

-- The replies of the endpoint: 404, 409, 500, the stored response, or a new one.
pub data Reply (V : Type 0) : Type 0 where
  decision_not_found decision_conflict recording_failed server_error : Reply V
  replayed : V → Reply V
  recorded : V → Reply V

-- The request's own part: the path, the body and the authenticated customer.
pub record Answer : Type 0 where
  pub decision_id : String
  pub customer_id : String
  pub session_id : String
  pub event_type : String
  pub idempotency_key : String

abbrev pub tool_event : {V : Type 0} → ℕ → Answer → DecisionRecord V → ToolEvent
tool_event now a r = record {
  customer_id = a.customer_id;
  session_id = a.session_id;
  offer_type = r.offer_type;
  event_type = a.event_type;
  trigger_type = r.trigger_type;
  timestamp = now;
}

module _ {V : Type 0} ⦃j : Json V⦄ where
  -- An exception that the two `except` clauses do not name leaves the endpoint.
  abbrev pub refusal : Error → Reply V
  refusal not_found = decision_not_found
  refusal conflict = decision_conflict
  refusal idempotency_conflict = decision_conflict
  refusal _ = server_error

  module _ {W : Type 0} where
    -- The `try` block behind a fresh claim.
    unfoldable pub finish :
        ℕ → Surroundings W V → Answer → DecisionRecord V → W → Rows → Reply V × W × Rows
    finish now world a r z db =
        let (z', sent) = world.call_tool (tool_event now a r) z in
        let aborted : Reply V × W × Rows =
          (recording_failed, z', abort_decision_event now a.idempotency_key db) in
        let response = world.response_of a.decision_id a.event_type in
        if sent
        then elim (complete_decision_event now a.decision_id a.idempotency_key a.event_type response
            db) [ ok db' ↦ (recorded response, z', db') | raised _ ↦ aborted ]
        else aborted

    -- Behind the claim: a raise is refused, a stored response is sent again, a fresh claim is finished.
    pub answered :
        ℕ
        → Surroundings W V
        → Answer
        → W
        → Rows
        → Outcome Error (Rows × DecisionRecord V × Option V)
        → Reply V × W × Rows
    answered now world a z db (raised e) = (refusal e, z, db)
    answered now world a z db (ok (db', r, some v)) = (replayed v, z, db')
    answered now world a z db (ok (db', r, none)) = finish now world a r z db'

    unfoldable pub respond : ℕ → Surroundings W V → Answer → W → Rows → Reply V × W × Rows
    unfolding answered
    respond now world a z db = answered now world a z db (
        claim_decision_event now a.decision_id a.customer_id a.session_id a.event_type
          a.idempotency_key db)
