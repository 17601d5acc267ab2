-- ===== src/Decisions/Conflicts.antt =====
-- The answers that are refused: in flight, under a reused key, on a resolved or a foreign decision.
use text.Mathlib.TextEquality.{eq_iff}
use neutail.Base.Table.{get}
use neutail.Base.{
  refl, ◌&&◌, ◌==◌, string_eq, Bool-cases, inr, Option-cases, inl, raised, some, ◌≢◌, none, ◌⊎◌,
  arith, ℕ, ◌≡◌,
}
use neutail.Decisions.{claim_existing, claim_new, claim_owned, claim_decision_event}
use neutail.Decisions.Schema.{
  processing, DecisionEvent, not_found, pending, idempotency_conflict, conflict, stored_response,
  owned, Rows, Error, Decision,
}
use neutail.Base.Json.{Json}
use neutail.Decisions.Claim.{claim, print, IsOwned, owned-ok}
use neutail.Decisions.Respond.{
  Answer, Surroundings, respond, answered, decision_conflict, decision_not_found,
}

-- Why a claim conflicts: its key is new and the decision is resolved; its key was used for another
-- request; or the same request is in flight.
pub data IsConflict (a : Answer) (d : Decision) (db : Rows) : Type 0 where
  resolved : get a.idempotency_key db.events ≡ none → d.status ≢ pending → IsConflict a d db
  reused :
      (e : DecisionEvent)
      → get a.idempotency_key db.events ≡ some e
      → e.fingerprint ≢ print a
      → IsConflict a d db
  in_flight :
      (e : DecisionEvent)
      → get a.idempotency_key db.events ≡ some e
      → e.fingerprint ≡ print a
      → e.status ≡ processing
      → IsConflict a d db

abbrev IsRefusal : Error → Type 0
IsRefusal e = (e ≡ conflict) ⊎ (e ≡ idempotency_conflict)

owned-foreign :
    (a : Answer) (db : Rows)
    → ((d : Decision) → ¬ IsOwned a d db)
    → owned a.customer_id a.session_id (get a.decision_id db.decisions) ≡ raised not_found
unfolding owned
owned-foreign a db h = elim (Option-cases (get a.decision_id db.decisions)) [
  | inl e ↦ rw e
  | inr (d, e) ↦
      elim (Bool-cases (d.customer_id == a.customer_id && d.session_id == a.session_id)) [
        | inl both ↦ absurd (
            h d (record {
              here = e;
              customer = ground (arith, both, eq_iff d.customer_id a.customer_id);
              session = ground (arith, both, eq_iff d.session_id a.session_id);
            }))
        | inr no_owner ↦ rw e (rw no_owner)
      ]
]

module _ {V : Type 0} ⦃j : Json V⦄ where
  claim_conflict :
      (now : ℕ) (a : Answer) (d : Decision) (db : Rows)
      → IsOwned a d db
      → IsConflict a d db
      → (e : Error) × (claim {V = V} now a db ≡ raised e) × IsRefusal e
  unfolding claim_decision_event claim_owned claim_new claim_existing stored_response
  claim_conflict now a d db o (resolved new done) =
      (conflict, rw (owned-ok a d db o, new) (ground arith), inl refl)
  claim_conflict now a d db o (reused e here other) = (
    idempotency_conflict,
    rw (owned-ok a d db o, here) (ground (arith, eq_iff e.fingerprint (print a))),
    inr refl,
  )
  claim_conflict now a d db o (in_flight e here same flying) = (
    conflict,
    rw (owned-ok a d db o, here) (ground (arith, eq_iff e.fingerprint (print a))),
    inl refl,
  )

  claim_foreign :
      (now : ℕ) (a : Answer) (db : Rows)
      → ((d : Decision) → ¬ IsOwned a d db)
      → claim {V = V} now a db ≡ raised not_found
  unfolding claim_decision_event
  claim_foreign now a db h = rw (owned-foreign a db h)

  -- A request whose key is new while the decision is resolved, whose key was used for another request,
  -- or which is in flight already, gets a conflict, changes nothing, and does not call the tool.
  pub respond_conflict :
      {W : Type 0} (now : ℕ) (w : Surroundings W V) (a : Answer) (d : Decision) (z : W) (db : Rows)
      → IsOwned a d db
      → IsConflict a d db
      → respond now w a z db ≡ (decision_conflict, z, db)
  unfolding respond
  respond_conflict now w a d z db o c =
      let (e, p, r) = claim_conflict now a d db o c in ground (arith, p, r)

  -- A decision that is not there, or belongs to another customer or session, is reported as not found,
  -- with nothing changed.
  pub respond_foreign :
      {W : Type 0} (now : ℕ) (w : Surroundings W V) (a : Answer) (z : W) (db : Rows)
      → ((d : Decision) → ¬ IsOwned a d db)
      → respond now w a z db ≡ (decision_not_found, z, db)
  unfolding respond
  respond_foreign now w a z db h = rw (claim_foreign now a db h, answered)
