-- ===== src/Decisions.antt =====
-- services/upsell_decision_service.py: durable upsell decisions and the customer's answers to them.
-- Each method is one database transaction: it returns the new rows, or raises and leaves the old ones.
pub mod Schema
pub mod Respond
pub mod Claim
pub mod Replay
pub mod Conflicts
pub mod Retry
mod Examples
use neutail.Base.{
  ℕ, String, Bool, true, false, not, ◌&&◌, Option, none, some, ◌==◌, if◌then◌else◌, string_eq,
  Outcome, ok, raised, ◌>>=◌, ◌>>◌, require, or_raise, is_some,
}
use neutail.Base.Json.{Json}
use neutail.Base.Table.{get, put}
use Schema.{
  Rows, Decision, DecisionEvent, DecisionRecord, ResultDict, Error, pending, processing, completed,
  failed, not_found, conflict, idempotency_conflict, key_error, bad_json, integrity, is_pending,
  is_processing, holds_text, terminal_status, fingerprint_of, by_source, stored_entity,
  source_is_free, fill, owned, stored_response,
}

abbrev pub record_of : {V : Type 0} → Decision → V → DecisionRecord V
record_of d result = record {
  decision_id = d.decision_id;
  customer_id = d.customer_id;
  session_id = d.session_id;
  offer_type = d.offer_type;
  trigger_type = d.trigger_type;
  status = d.status;
  result = result;
  source_event_id = d.source_event_id;
  trace_id = d.trace_id;
  created_at = d.created_at;
}

module _ {V : Type 0} ⦃j : Json V⦄ where
  -- `_to_record`
  pub to_record : Decision → Outcome Error (DecisionRecord V)
  to_record d = do result ← or_raise (j.loads d.result_json) bad_json; ok (record_of d result)

  save_decision : Rows → Decision → Outcome Error (Rows × Option (DecisionRecord V))
  unfolding to_record source_is_free
  save_decision db d = do
    require (source_is_free db.decisions d) integrity
    r ← to_record d
    ok (record db { decisions = put d.decision_id d db.decisions }, some r)

  upsert_decision :
      ℕ
      → String
      → String
      → ResultDict V
      → String
      → Option String
      → Option String
      → Option Decision
      → Rows
      → Outcome Error (Rows × Option (DecisionRecord V))
  unfolding save_decision fill
  upsert_decision now customer_id session_id result id source trace none db = do
    offer ← or_raise result.offer key_error
    offer_type ← or_raise offer key_error
    trigger ← or_raise result.trigger key_error
    trigger_type ← or_raise trigger key_error
    save_decision db (record {
      decision_id = id;
      customer_id = customer_id;
      session_id = session_id;
      offer_type = offer_type;
      trigger_type = trigger_type;
      status = pending;
      result_json = j.dumps result.whole;
      source_event_id = source;
      trace_id = trace;
      created_at = now;
      updated_at = now;
      resolved_at = none;
    })
  upsert_decision now customer_id session_id result id source trace (some d) db = do
    require (d.customer_id == customer_id) conflict
    save_decision db (record d {
      source_event_id = fill source d.source_event_id;
      trace_id = fill trace d.trace_id;
      result_json = j.dumps result.whole;
      updated_at = now;
    })

  -- Only an available offer with its id is recorded; else nothing happens.
  actionable : ResultDict V → Option String
  actionable result =
      if holds_text "OFFER_AVAILABLE" result.status
        && is_some result.offer
        && is_some result.trigger
      then result.decision_id
      else none

  unfoldable pub record_decision :
      ℕ
      → String
      → String
      → ResultDict V
      → Option String
      → Option String
      → Rows
      → Outcome Error (Rows × Option (DecisionRecord V))
  unfolding actionable upsert_decision stored_entity
  record_decision now customer_id session_id result source trace db = elim (actionable result) [
    | none ↦ ok (db, none)
    | some id ↦
        upsert_decision now customer_id session_id result id source trace
          (stored_entity db id source) db
  ]

  unfoldable pub find_by_source_event : String → Rows → Outcome Error (Option (DecisionRecord V))
  unfolding by_source to_record
  find_by_source_event source db = elim (by_source db.decisions source) [
    | none ↦ ok none
    | some d ↦ (do r ← to_record d; ok (some r))
  ]

  pub claim_existing :
      ℕ
      → String
      → String
      → Decision
      → DecisionEvent
      → Rows
      → Outcome Error (Rows × DecisionRecord V × Option V)
  unfolding stored_response to_record
  claim_existing now key fingerprint d e db =
      if not (e.fingerprint == fingerprint)
      then raised idempotency_conflict
      else elim (stored_response e) [
        | some text ↦ (do
          r ← to_record d
          response ← or_raise (j.loads text) bad_json
          ok (db, r, some response))
        | none ↦ if is_processing e.status then raised conflict else (do
          r ← to_record d
          let e' = record e { status = processing; updated_at = now }
          ok (record db { events = put key e' db.events }, r, none))
      ]

  pub claim_new :
      ℕ
      → String
      → String
      → String
      → Decision
      → Rows
      → Outcome Error (Rows × DecisionRecord V × Option V)
  unfolding to_record
  claim_new now key fingerprint event_type d db = do
    require (is_pending d.status) conflict
    r ← to_record d
    let e : DecisionEvent = record {
      decision_id = d.decision_id;
      fingerprint = fingerprint;
      event_type = event_type;
      status = processing;
      response_json = none;
      created_at = now;
      updated_at = now;
    }
    ok (record db { events = put key e db.events }, r, none)

  pub claim_owned :
      ℕ
      → String
      → String
      → String
      → Decision
      → Option DecisionEvent
      → Rows
      → Outcome Error (Rows × DecisionRecord V × Option V)
  unfolding claim_new claim_existing
  claim_owned now key fingerprint event_type d none = claim_new now key fingerprint event_type d
  claim_owned now key fingerprint event_type d (some e) = claim_existing now key fingerprint d e

  pub claim_decision_event :
      ℕ
      → String
      → String
      → String
      → String
      → String
      → Rows
      → Outcome Error (Rows × DecisionRecord V × Option V)
  unfolding owned claim_owned
  claim_decision_event now decision_id customer_id session_id event_type key db = do
    d ← owned customer_id session_id (get decision_id db.decisions)
    claim_owned now key (fingerprint_of decision_id customer_id session_id event_type) event_type d
        (get key db.events) db

  pub complete_decision_event : ℕ → String → String → String → V → Rows → Outcome Error Rows
  complete_decision_event now decision_id key event_type response db = do
    e ← or_raise (get key db.events) not_found
    d ← or_raise (get decision_id db.decisions) not_found
    status ← or_raise (terminal_status event_type) key_error
    let e' = record e {
      status = completed;
      response_json = some (j.dumps response);
      updated_at = now;
    }
    let d' = record d { status = status; updated_at = now; resolved_at = some now }
    ok (record { decisions = put decision_id d' db.decisions; events = put key e' db.events })

pub abort_decision_event : ℕ → String → Rows → Rows
abort_decision_event now key db = elim (get key db.events) [
  | none ↦ db
  | some e ↦
      if is_processing e.status
      then record db { events = put key (record e { status = failed; updated_at = now }) db.events }
      else db
]
