-- ===== src/Decisions/Retry.antt =====
-- Answers whose recording failed, and their retry under the same key.
use text.Mathlib.TextEquality.{eq_iff}
use neutail.Base.Table.{get-put_self, put, get}
use neutail.Base.Json.{Json}
use neutail.Decisions.Schema.{
  DecisionRecord, completed, terminal_status, failed, pending, processing, Decision, Rows,
  stored_response, DecisionEvent, DecisionStatus,
}
use neutail.Base.{String, arith, true, false, ok, string_eq, none, some, ◌≡◌, ℕ, refl}
use neutail.Decisions.{
  claim_existing, claim_new, claim_owned, claim_decision_event, complete_decision_event,
  abort_decision_event, to_record, record_of,
}
use neutail.Decisions.Claim.{claim, print, IsOwned, owned-ok}
use neutail.Decisions.Respond.{
  tool_event, ToolEvent, Answer, Surroundings, respond, answered, finish, recorded,
  recording_failed,
}

-- The rows after a recording that failed: no decision changed, and the key may be claimed again.
pub record IsFailed (a : Answer) (e : DecisionEvent) (db db' : Rows) : Type 0 where
  pub decisions : db'.decisions ≡ db.decisions
  pub event : get a.idempotency_key db'.events ≡ some e
  pub print_eq : e.fingerprint ≡ print a
  pub status : e.status ≡ failed

-- The rows after a retry: the decision has the status of this answer.
pub record IsRetried (a : Answer) (s : DecisionStatus) (d : Decision) (db' : Rows) : Type 0 where
  pub decision : get a.decision_id db'.decisions ≡ some d
  pub status : d.status ≡ s

abbrev first_event : ℕ → Answer → Decision → DecisionEvent
first_event now a d = record {
  decision_id = d.decision_id;
  fingerprint = print a;
  event_type = a.event_type;
  status = processing;
  response_json = none;
  created_at = now;
  updated_at = now;
}

-- The event under a failed attempt, and its rows.
abbrev failed_event : ℕ → DecisionEvent → DecisionEvent
failed_event now e = record e { status = failed; updated_at = now }

abort-processing :
    (now : ℕ) (key : String) (e : DecisionEvent) (db : Rows)
    → get key db.events ≡ some e
    → e.status ≡ processing
    → abort_decision_event now key db
      ≡ record db { events = put key (failed_event now e) db.events }
unfolding abort_decision_event
abort-processing now key e db here p = rw (here, abort_decision_event) (ground arith)

module _ {V : Type 0} ⦃j : Json V⦄ where
  claim_first :
      (now : ℕ) (a : Answer) (d : Decision) (x : V) (db : Rows)
      → IsOwned a d db
      → d.status ≡ pending
      → get a.idempotency_key db.events ≡ none
      → j.loads d.result_json ≡ some x
      → claim now a db
        ≡ ok (
          record db { events = put a.idempotency_key (first_event now a d) db.events },
          record_of d x,
          none,
        )
  unfolding claim_decision_event claim_owned claim_new to_record
  claim_first now a d x db o p new l = rw (owned-ok a d db o, new) (ground arith)

  claim_again :
      (now : ℕ) (a : Answer) (d : Decision) (e : DecisionEvent) (x : V) (db : Rows)
      → IsOwned a d db
      → get a.idempotency_key db.events ≡ some e
      → e.fingerprint ≡ print a
      → e.status ≡ failed
      → j.loads d.result_json ≡ some x
      → claim now a db
        ≡ ok (
          record db {
            events =
                put a.idempotency_key
                  (record e { status = processing; updated_at = now })
                  db.events;
          },
          record_of d x,
          none,
        )
  unfolding claim_decision_event claim_owned claim_existing to_record stored_response
  claim_again now a d e x db o here same bad l =
      rw (owned-ok a d db o, here) (ground (arith, eq_iff e.fingerprint (print a)))

  finish_fails :
      {W : Type 0} (now : ℕ) (w : Surroundings W V) (a : Answer) (r : DecisionRecord V) (z : W)
      (db : Rows)
      → (w.call_tool (tool_event now a r) z).1 ≡ false
      → finish now w a r z db ≡ (
        recording_failed,
        (w.call_tool (tool_event now a r) z).0,
        abort_decision_event now a.idempotency_key db,
      )
  unfolding finish
  finish_fails now w a r z db f = rw f

  complete_records :
      (now : ℕ) (a : Answer) (v : V) (d : Decision) (e : DecisionEvent) (s : DecisionStatus)
      (db : Rows)
      → get a.decision_id db.decisions ≡ some d
      → get a.idempotency_key db.events ≡ some e
      → terminal_status a.event_type ≡ some s
      → (db' : Rows) × (d' : Decision) × (complete_decision_event now a.decision_id
            a.idempotency_key a.event_type v db
          ≡ ok db')
        × IsRetried a s d' db'
  unfolding complete_decision_event
  complete_records now a v d e s db hd he t =
      let e' = record e {
        status = completed;
        response_json = some (j.dumps v);
        updated_at = now;
      } in
      let d' = record d { status = s; updated_at = now; resolved_at = some now } in
      (
        record {
          decisions = put a.decision_id d' db.decisions;
          events = put a.idempotency_key e' db.events;
        },
        d',
        rw (hd, he, t),
        record { decision = get-put_self a.decision_id d' db.decisions; status = refl },
      )

  finish_records :
      {W : Type 0} (now : ℕ) (w : Surroundings W V) (a : Answer) (r : DecisionRecord V) (z : W)
      (db db' : Rows)
      → (w.call_tool (tool_event now a r) z).1 ≡ true
      → complete_decision_event now a.decision_id a.idempotency_key a.event_type
          (w.response_of a.decision_id a.event_type)
          db
        ≡ ok db'
      → finish now w a r z db ≡ (
        recorded (w.response_of a.decision_id a.event_type),
        (w.call_tool (tool_event now a r) z).0,
        db',
      )
  unfolding finish
  finish_records now w a r z db db' f c = rw f (rw c)

  -- If the tool raises on the first answer to a pending decision, the endpoint reports the failure, no
  -- decision changes, and the key is left as failed under the request's fingerprint.
  pub respond_fails :
      {W : Type 0} (now : ℕ) (w : Surroundings W V) (a : Answer) (d : Decision) (x : V) (z : W)
      (db : Rows)
      → IsOwned a d db
      → d.status ≡ pending
      → get a.idempotency_key db.events ≡ none
      → j.loads d.result_json ≡ some x
      → ((t : ToolEvent) (y : W) → (w.call_tool t y).1 ≡ false)
      → (db' : Rows) × (e : DecisionEvent) × (respond now w a z db
          ≡ (recording_failed, (w.call_tool (tool_event now a (record_of d x)) z).0, db'))
        × IsFailed a e db db'
  unfolding respond
  respond_fails now w a d x z db o p new l tool =
      let e = first_event now a d in
      let db₁ = record db { events = put a.idempotency_key e db.events } in
      let here = get-put_self a.idempotency_key e db.events in
      (
        record db₁ { events = put a.idempotency_key (failed_event now e) db₁.events },
        failed_event now e,
        rw (
          claim_first now a d x db o p new l,
          answered,
          finish_fails now w a (record_of d x) z db₁ (tool _ _),
          abort-processing now a.idempotency_key e db₁ here refl,
        ),
        record {
          decisions = refl;
          event = get-put_self a.idempotency_key (failed_event now e) db₁.events;
          print_eq = refl;
          status = refl;
        },
      )

  -- The retry of a failed answer, under the same key, is recorded, and the decision takes the status of
  -- this answer whatever status it has by then, also one that another answer has given it.
  pub retry_records :
      {W : Type 0} (now : ℕ) (w : Surroundings W V) (a : Answer) (d : Decision) (e : DecisionEvent)
      (x : V) (s : DecisionStatus) (z : W) (db : Rows)
      → IsOwned a d db
      → get a.idempotency_key db.events ≡ some e
      → e.fingerprint ≡ print a
      → e.status ≡ failed
      → j.loads d.result_json ≡ some x
      → terminal_status a.event_type ≡ some s
      → ((t : ToolEvent) (y : W) → (w.call_tool t y).1 ≡ true)
      → (db' : Rows) × (d' : Decision) × (respond now w a z db ≡ (
        recorded (w.response_of a.decision_id a.event_type),
        (w.call_tool (tool_event now a (record_of d x)) z).0,
        db',
      ))
        × IsRetried a s d' db'
  unfolding respond
  retry_records now w a d e x s z db o here same bad l t tool =
      let e₁ = record e { status = processing; updated_at = now } in
      let db₁ = record db { events = put a.idempotency_key e₁ db.events } in
      let (db', d', c, q) =
        complete_records now a (w.response_of a.decision_id a.event_type) d e₁ s db₁ o.here
          (get-put_self a.idempotency_key e₁ db.events) t in
      (
        db',
        d',
        rw (claim_again now a d e x db o here same bad l, answered)
            (finish_records now w a (record_of d x) z db₁ db' (tool _ _) c),
        q,
      )
