-- ===== src/Decisions/Replay.antt =====
-- An answer that was recorded is sent again to the same request.
use neutail.Base.{
  ℕ, String, ◌≡◌, refl, ap, ◌∙◌, Option, none, some, string_eq, arith, Outcome, ok, raised,
  Option-cases, inl, inr,
}
use neutail.Base.Json.{Json, IsJson}
use neutail.Base.Table.{get, get-put_self}
use neutail.Decisions.Schema.{
  Rows, Decision, DecisionEvent, DecisionRecord, Error, completed, terminal_status,
}
use neutail.Decisions.{complete_decision_event}
use neutail.Decisions.Respond.{Answer, Surroundings, recorded, replayed, finish, answered, respond}
use neutail.Decisions.Claim.{claim, IsOwned, claim_inv, claim_replays}

-- The rows that a completion writes.
record IsCompletion (now : ℕ) (did key text : String) (d d' : Decision) (e e' : DecisionEvent)
    (db db' : Rows) : Type 0 where
  decision : get did db.decisions ≡ some d
  event : get key db.events ≡ some e
  decision' : get did db'.decisions ≡ some d'
  event' : get key db'.events ≡ some e'
  customer : d'.customer_id ≡ d.customer_id
  session : d'.session_id ≡ d.session_id
  result : d'.result_json ≡ d.result_json
  print_eq : e'.fingerprint ≡ e.fingerprint
  done : e'.status ≡ completed
  response : e'.response_json ≡ some text

module _ {V : Type 0} ⦃j : Json V⦄ where
  complete_inv :
      (now : ℕ) (did key et : String) (v : V) (db db' : Rows)
      → complete_decision_event now did key et v db ≡ ok db'
      → (d d' : Decision) × (e e' : DecisionEvent) × IsCompletion now did key
          (j.dumps v)
          d
          d'
          e
          e'
          db
          db'
  unfolding complete_decision_event
  complete_inv now did key et v db db' h = elim (Option-cases (get key db.events)) [
    | inl q ↦ ground (arith, h, q)
    | inr (e, qe) ↦ elim (Option-cases (get did db.decisions)) [
      | inl q ↦ ground (arith, h, qe, q)
      | inr (d, qd) ↦ elim (Option-cases (terminal_status et)) [
        | inl q ↦ ground (arith, h, qe, qd, q)
        | inr (s, qs) ↦
            let e' = record e {
              status = completed;
              response_json = some (j.dumps v);
              updated_at = now;
            } in
            let d' = record d { status = s; updated_at = now; resolved_at = some now } in
            (
              d,
              d',
              e,
              e',
              ground (
                arith,
                h,
                qe,
                qd,
                qs,
                get-put_self key e' db.events,
                get-put_self did d' db.decisions,
              ),
            )
      ]
    ]
  ]

  finish_inv :
      {W : Type 0} (now : ℕ) (w : Surroundings W V) (a : Answer) (r : DecisionRecord V) (z z' : W)
      (db db' : Rows) (v : V)
      → finish now w a r z db ≡ (recorded v, z', db')
      → complete_decision_event now a.decision_id a.idempotency_key a.event_type v db ≡ ok db'
  unfolding finish
  finish_inv now w a r z z' db db' v h = ground (arith, h)

  respond_inv :
      {W : Type 0} (now : ℕ) (w : Surroundings W V) (a : Answer) (z z' : W) (db db' : Rows) (v : V)
      → respond now w a z db ≡ (recorded v, z', db')
      → (db₁ : Rows) × (r : DecisionRecord V) × (claim now a db ≡ ok (db₁, r, none))
        × (complete_decision_event now a.decision_id a.idempotency_key a.event_type v db₁ ≡ ok db')
  unfolding respond
  respond_inv now w a z z' db db' v h = go (claim now a db) refl
    where
      go :
          (o : Outcome Error (Rows × DecisionRecord V × Option V))
          → claim now a db ≡ o
          → (db₁ : Rows) × (r : DecisionRecord V) × (claim now a db ≡ ok (db₁, r, none))
            × (complete_decision_event now a.decision_id a.idempotency_key a.event_type v db₁
                ≡ ok db')
      go (raised e) q = ground (arith, rw q at h)
      go (ok (db₁, r, some x)) q = ground (arith, rw q at h)
      go (ok (db₁, r, none)) q =
          (db₁, r, q, finish_inv now w a r z z' db₁ db' v (rw (q, answered) at h))

  -- Once an answer is recorded, the same request again has the same reply and changes nothing, at any
  -- later time and whatever the tool would do.
  pub respond_replays :
      IsJson V
      → {W : Type 0} (now later : ℕ) (w w' : Surroundings W V) (a : Answer) (z z₁ z₂ : W)
        (db db' : Rows) (v : V)
      → respond now w a z db ≡ (recorded v, z₁, db')
      → respond later w' a z₂ db' ≡ (replayed v, z₂, db')
  unfolding respond
  respond_replays laws now later w w' a z z₁ z₂ db db' v h =
      let (db₁, r, claimed, completed_) = respond_inv now w a z z₁ db db' v h in
      let (d, e, fresh) = claim_inv now a db db₁ r claimed in
      let (d₁, d', e₁, e', c) =
        complete_inv now a.decision_id a.idempotency_key a.event_type v db₁ db' completed_ in
      let same₁ : d₁ ≡ d = ground (arith, c.decision, fresh.owner.here, fresh.claimed.same) in
      let same₂ : e₁ ≡ e = ground (arith, c.event, fresh.claimed.there) in
      let o : IsOwned a d' db' = record {
        here = c.decision';
        customer = c.customer ∙ ap (λ (x : Decision). x.customer_id) same₁ ∙ fresh.owner.customer;
        session = c.session ∙ ap (λ (x : Decision). x.session_id) same₁ ∙ fresh.owner.session;
      } in
      rw (
        claim_replays later a d' e' v r.result (j.dumps v) db' o c.event'
            (c.print_eq ∙ ap (λ (x : DecisionEvent). x.fingerprint) same₂ ∙ fresh.claimed.print_eq)
            c.done c.response (laws.dumps-ne-empty v) (laws.loads-dumps v)
            (ap j.loads (c.result ∙ ap (λ (x : Decision). x.result_json) same₁)
              ∙ fresh.claimed.loads),
        answered,
      )
