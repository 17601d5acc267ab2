-- ===== src/Decisions/Claim.antt =====
-- What a claim does, by the decision and the event that it finds.
use neutail.Base.{
  ℕ, String, ◌≡◌, ◌≢◌, refl, Option, none, some, string_eq, arith, Outcome, ok, raised,
  Option-cases, inl, inr,
}
use text.Mathlib.TextEquality.{eq_iff}
use neutail.Base.Json.{Json}
use neutail.Base.Table.{get, get-put_self}
use neutail.Decisions.Schema.{
  Rows, Decision, DecisionEvent, DecisionRecord, Error, processing, completed, fingerprint_of,
  owned, stored_response,
}
use neutail.Decisions.{
  claim_decision_event, claim_owned, claim_new, claim_existing, to_record, record_of,
}
use neutail.Decisions.Respond.{Answer}

abbrev pub print : Answer → String
print a = fingerprint_of a.decision_id a.customer_id a.session_id a.event_type

-- The decision that an answer names, as its owner sees it.
pub record IsOwned (a : Answer) (d : Decision) (db : Rows) : Type 0 where
  pub here : get a.decision_id db.decisions ≡ some d
  pub customer : d.customer_id ≡ a.customer_id
  pub session : d.session_id ≡ a.session_id

abbrev pub claim :
    {V : Type 0} ⦃j : Json V⦄
    → ℕ
    → Answer
    → Rows
    → Outcome Error (Rows × DecisionRecord V × Option V)
claim now a =
    claim_decision_event now a.decision_id a.customer_id a.session_id a.event_type a.idempotency_key

pub owned-ok :
    (a : Answer) (d : Decision) (db : Rows)
    → IsOwned a d db
    → owned a.customer_id a.session_id (get a.decision_id db.decisions) ≡ ok d
unfolding owned
owned-ok a d db o = rw o.here (
    ground (
      arith,
      o.customer,
      o.session,
      eq_iff d.customer_id a.customer_id,
      eq_iff d.session_id a.session_id,
    ))

pub owned_inv :
    (a : Answer) (d : Decision) (db : Rows)
    → owned a.customer_id a.session_id (get a.decision_id db.decisions) ≡ ok d
    → IsOwned a d db
unfolding owned
owned_inv a d db h = elim (Option-cases (get a.decision_id db.decisions)) [
  | inl e ↦ ground (arith, rw e at h)
  | inr (d', e) ↦
      let h' = rw e at h in
      ground (arith, h', e, eq_iff d'.customer_id a.customer_id, eq_iff d'.session_id a.session_id)
]

module _ {V : Type 0} ⦃j : Json V⦄ where
  -- A fresh claim leaves the decisions, and its event is in flight under the claim's fingerprint.
  pub record IsClaim (key fp : String) (d : Decision) (e : DecisionEvent) (r : DecisionRecord V)
      (db db' : Rows) : Type 0 where
    pub loads : j.loads d.result_json ≡ some r.result
    pub same : db'.decisions ≡ db.decisions
    pub there : get key db'.events ≡ some e
    pub print_eq : e.fingerprint ≡ fp
    pub flying : e.status ≡ processing

  claim_owned_inv :
      (now : ℕ) (key fp et : String) (d : Decision) (o : Option DecisionEvent) (db db' : Rows)
      (r : DecisionRecord V)
      → claim_owned now key fp et d o db ≡ ok (db', r, none)
      → (e : DecisionEvent) × IsClaim key fp d e r db db'
  unfolding claim_owned claim_new claim_existing to_record stored_response
  claim_owned_inv now key fp et d none db db' r h =
      let e : DecisionEvent = record {
        decision_id = d.decision_id;
        fingerprint = fp;
        event_type = et;
        status = processing;
        response_json = none;
        created_at = now;
        updated_at = now;
      } in
      (e, ground (arith, get-put_self key e db.events))
  claim_owned_inv now key fp et d (some e) db db' r h =
      let e' = record e { status = processing; updated_at = now } in
      (e', ground (arith, get-put_self key e' db.events, eq_iff e.fingerprint fp))

  pub record IsFresh (a : Answer) (d : Decision) (e : DecisionEvent) (r : DecisionRecord V)
      (db db' : Rows) : Type 0 where
    pub owner : IsOwned a d db
    pub claimed : IsClaim a.idempotency_key (print a) d e r db db'

  pub claim_inv :
      (now : ℕ) (a : Answer) (db db' : Rows) (r : DecisionRecord V)
      → claim now a db ≡ ok (db', r, none)
      → (d : Decision) × (e : DecisionEvent) × IsFresh a d e r db db'
  unfolding claim_decision_event
  claim_inv now a db db' r h =
      go (owned a.customer_id a.session_id (get a.decision_id db.decisions)) refl
    where
      go :
          (o : Outcome Error Decision)
          → owned a.customer_id a.session_id (get a.decision_id db.decisions) ≡ o
          → (d : Decision) × (e : DecisionEvent) × IsFresh a d e r db db'
      go (ok d) q =
          let (e, c) =
            claim_owned_inv now a.idempotency_key (print a) a.event_type d
              (get a.idempotency_key db.events) db db' r (rw q at h) in
          (d, e, record { owner = owned_inv a d db q; claimed = c })
      go (raised x) q = cc (rw q at h)

  -- A completed event under the same fingerprint replays its response and writes nothing.
  pub claim_replays :
      (now : ℕ) (a : Answer) (d : Decision) (e : DecisionEvent) (v x : V) (text : String)
      (db : Rows)
      → IsOwned a d db
      → get a.idempotency_key db.events ≡ some e
      → e.fingerprint ≡ print a
      → e.status ≡ completed
      → e.response_json ≡ some text
      → text ≢ ""
      → j.loads text ≡ some v
      → j.loads d.result_json ≡ some x
      → claim now a db ≡ ok (db, record_of d x, some v)
  unfolding claim_decision_event claim_owned claim_existing to_record stored_response
  claim_replays now a d e v x text db o here same done has ne reads result =
      rw (owned-ok a d db o, here) (ground (arith, eq_iff e.fingerprint (print a), eq_iff text ""))
