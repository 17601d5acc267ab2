-- ===== src/Decisions/Examples.antt =====
-- Runs of the decision endpoint, and the theorems at concrete requests.
use text.Mathlib.TextEquality.{eq_iff}
use neutail.Decisions.{
  record_of, find_by_source_event, record_decision, to_record, complete_decision_event,
  claim_decision_event,
}
use neutail.Decisions.Retry.{respond_fails, retry_records, IsFailed, IsRetried}
use neutail.Decisions.Claim.{IsOwned}
use neutail.Decisions.Conflicts.{respond_foreign, respond_conflict, IsConflict}
use neutail.Decisions.Replay.{respond_replays}
use neutail.Base.Table.{put, get}
use neutail.Base.{ℕ, ◌+◌, ok, ◌∙◌, ap, false, ◌∷◌, Bool, ◌≡◌, refl, [], none, some, true}
use neutail.Base.Samples.{flag_json, flag-IsJson}
use neutail.Decisions.Schema.{
  fill, source_is_free, by_source, stored_entity, failed, accepted, declined, completed, Rows,
  DecisionEvent, pending, Decision,
}
use neutail.Decisions.Respond.{
  decision_conflict, decision_not_found, recording_failed, Surroundings, finish, Answer, respond,
  recorded, replayed,
}
use mathlib.Core.Option.{some-injective}
use mathlib.Core.Bool.{false≢true}

abbrev offered : Decision
offered = record {
  decision_id = "UPSELL-1";
  customer_id = "CUST001";
  session_id = "S1";
  offer_type = "STYLE_PLUS_TRIAL";
  trigger_type = "HIGH_PRODUCT_ENGAGEMENT";
  status = pending;
  result_json = "true";
  source_event_id = some "OUT-1";
  trace_id = none;
  created_at = 10;
  updated_at = 10;
  resolved_at = none;
}

abbrev rows_before : Rows
rows_before = record { decisions = ("UPSELL-1", offered) ∷ []; events = [] }

abbrev accept : Answer
accept = record {
  decision_id = "UPSELL-1";
  customer_id = "CUST001";
  session_id = "S1";
  event_type = "OFFER_ACCEPTED";
  idempotency_key = "k1";
}

abbrev decline : Answer
decline = record accept { event_type = "OFFER_DECLINED"; idempotency_key = "k2" }

abbrev foreign : Answer
foreign = record accept { customer_id = "CUST002" }

-- The world counts the tool's calls.
abbrev working : Surroundings ℕ Bool
working = record { call_tool = λ _ calls. (calls + 1, true); response_of = λ _ _. true }

abbrev broken : Surroundings ℕ Bool
broken = record { call_tool = λ _ calls. (calls + 1, false); response_of = λ _ _. true }

abbrev event_after : DecisionEvent
event_after = record {
  decision_id = "UPSELL-1";
  fingerprint = "UPSELL-1|CUST001|S1|OFFER_ACCEPTED";
  event_type = "OFFER_ACCEPTED";
  status = completed;
  response_json = some "true";
  created_at = 20;
  updated_at = 20;
}

abbrev rows_after : Rows
rows_after = record {
  decisions =
      ("UPSELL-1", record offered { status = accepted; updated_at = 20; resolved_at = some 20 })
      ∷ [];
  events = ("k1", event_after) ∷ [];
}

accepts : respond 20 working accept 0 rows_before ≡ (recorded true, 1, rows_after)
unfolding respond finish claim_decision_event complete_decision_event to_record get put
accepts = refl

respond_replays_example : respond 30 broken accept 1 rows_after ≡ (replayed true, 1, rows_after)
respond_replays_example =
    respond_replays flag-IsJson 20 30 working broken accept 0 1 1 rows_before rows_after true
      accepts

offered-IsOwned : IsOwned accept offered rows_before
unfolding get
offered-IsOwned = record { here = refl; customer = refl; session = refl }

resolved-IsConflict :
    IsConflict decline
      (record offered { status = accepted; updated_at = 20; resolved_at = some 20 })
      rows_after
unfolding get
resolved-IsConflict = IsConflict.resolved refl (λ e. cc)

respond_conflict_example :
    respond 30 working decline 1 rows_after ≡ (decision_conflict, 1, rows_after)
unfolding get
respond_conflict_example =
    respond_conflict 30 working decline
      (record offered { status = accepted; updated_at = 20; resolved_at = some 20 }) 1 rows_after
      (record { here = refl; customer = refl; session = refl }) resolved-IsConflict

foreign_is_foreign : (d : Decision) → ¬ IsOwned foreign d rows_before
unfolding get
foreign_is_foreign d o = false≢true (
    (eq_iff "CUST001" "CUST002").1
      (ap (λ (x : Decision). x.customer_id) (some-injective _ _ o.here) ∙ o.customer))

respond_foreign_example :
    respond 30 working foreign 0 rows_before ≡ (decision_not_found, 0, rows_before)
respond_foreign_example = respond_foreign 30 working foreign 0 rows_before foreign_is_foreign

respond_fails_example :
    (db' : Rows) × (e : DecisionEvent) × (respond 20 broken accept 0 rows_before
      ≡ (recording_failed, 1, db'))
    × IsFailed accept e rows_before db'
unfolding get
respond_fails_example =
    respond_fails 20 broken accept offered true 0 rows_before offered-IsOwned refl refl refl
      (λ _ _. refl)

-- `k1` failed, then `k2` declined the offer; the retry of `k1` turns it into an accepted one.
abbrev rows_declined : Rows
rows_declined = record {
  decisions =
      ("UPSELL-1", record offered { status = declined; updated_at = 25; resolved_at = some 25 })
      ∷ [];
  events = ("k1", record event_after { status = failed; response_json = none }) ∷ [];
}

retry_records_example :
    (db' : Rows) × (d' : Decision) × (respond 30 working accept 0 rows_declined
      ≡ (recorded true, 1, db'))
    × IsRetried accept accepted d' db'
unfolding get
retry_records_example =
    retry_records 30 working accept
      (record offered { status = declined; updated_at = 25; resolved_at = some 25 })
      (record event_after { status = failed; response_json = none }) true accepted 0 rows_declined
      (record { here = refl; customer = refl; session = refl }) refl refl refl refl refl
      (λ _ _. refl)

-- An actionable offer is stored as a pending decision, and is found by its source event.
record_offer :
    (record_decision 10 "CUST001" "S1"
      (record {
        status = some "OFFER_AVAILABLE";
        offer = some (some "STYLE_PLUS_TRIAL");
        trigger = some (some "HIGH_PRODUCT_ENGAGEMENT");
        decision_id = some "UPSELL-1";
        whole = true;
      })
      (some "OUT-1")
      none
      (record { decisions = []; events = [] }))
    ≡ ok (rows_before, some (record_of offered true))
unfolding record_decision to_record stored_entity source_is_free get put fill by_source
record_offer = refl

find_offer : find_by_source_event "OUT-1" rows_before ≡ ok (some (record_of offered true))
unfolding find_by_source_event by_source to_record
find_offer = refl
