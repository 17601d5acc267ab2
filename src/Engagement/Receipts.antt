-- ===== src/Engagement/Receipts.antt =====
-- A receipt stays, with the customer's key and fingerprint, through each operation of the service.
use neutail.Base.{
  if◌then◌else◌, Bool-cases, or_raise_inv, ok-injective, >>=_inv, ℕ, ◌≡◌, refl, sym, ap, ◌∙◌, inl,
  inr, Bool, true, false, Option, none, some, List, [], ◌∷◌, ◌++◌, arith, ◌==◌, nat_eq, string_eq,
  pair_eq, beq_self, ok,
}
use mathlib.Core.Bool.{false≢true}
use mathlib.Core.Path.{subst}
use mathlib.Core.Option.{some-injective}
use neutail.Base.Lists.{find_first}
use neutail.Base.{if◌then◌else◌}
use neutail.Base.Json.{Json, IsJson}
use neutail.Base.Table.{get, put, rows, get-put_self}
use neutail.Base.Text.{Unicode, codes_eq}
use neutail.Engagement.Schema.{
  UpsellTrigger, Payload, Receipt, Rows, RecordedProductView, completed, missing,
}
use neutail.Engagement.{
  Request, Surroundings, add_view, new_receipt, record_new, recorded, replay, to_result, complete,
  find_row, is_receipt_of, stored_response, read_stored, validate_fingerprint, view_of,
}
use neutail.Engagement.Keyed.{IsKeyed, put-IsKeyed, get-IsKeyed, find_first-IsKeyed}
use neutail.Engagement.Lookup.{
  IsAdded, add_view-IsAdded, find_first-append, find_first-last, find_first-put, rows-put_new,
}

module _ ⦃u : Unicode⦄ ⦃jp : Json Payload⦄ ⦃jt : Json UpsellTrigger⦄
    (receipt_id : List ℕ → List ℕ → List ℕ) where
  -- The receipts after a new view.
  added_rows :
      (env : Surroundings) (q : Request) (db db' : Rows) (r : Receipt)
      → IsAdded receipt_id env q db db' r
      → rows db'.receipts ≡ rows db.receipts ++ r ∷ []
  added_rows env q db db' r a =
      ap (λ (d : Rows). rows d.receipts) a.result ∙ rows-put_new r.receipt_id r db.receipts a.is_new

  add_view-IsKeyed :
      (env : Surroundings) (q : Request) (db db' : Rows) (r : Receipt)
      → IsAdded receipt_id env q db db' r
      → IsKeyed db.receipts
      → IsKeyed db'.receipts
  add_view-IsKeyed env q db db' r a h =
      subst IsKeyed (sym (ap (λ (d : Rows). d.receipts) a.result)) (put-IsKeyed r db.receipts h)

module _ {R : Type 0} ⦃j : Json R⦄ ⦃jt : Json UpsellTrigger⦄ where
  -- There is a receipt for the customer's key, with the fingerprint, the result `x` and this response.
  pub record HasReceipt (customer key fingerprint : List ℕ) (x : RecordedProductView R)
      (answer : Option R) (db : Rows) : Type 0 where
    pub keyed : IsKeyed db.receipts
    pub receipt : Receipt
    pub found : find_row customer key db ≡ some receipt
    pub same : receipt.fingerprint ≡ fingerprint
    pub result :
        to_result true receipt ≡ ok (record x { replayed = true; completed_response = answer })

  pub to_result_inv :
      (b : Bool) (r : Receipt) (x : RecordedProductView R)
      → to_result b r ≡ ok x
      → (t : Option UpsellTrigger) × (a : Option R) × (read_stored jt.loads r.trigger_json ≡ ok t)
        × (stored_response r.status r.response_json ≡ ok a)
        × (view_of b r t a ≡ x)
  unfolding to_result
  to_result_inv b r x h =
      let (t, e₁, h₁) = >>=_inv (read_stored jt.loads r.trigger_json) _ _ h in
      let (a, e₂, h₂) = >>=_inv (stored_response {R = R} r.status r.response_json) _ _ h₁ in
      (t, a, e₁, e₂, ok-injective _ _ h₂)

  to_result-replayed :
      (b : Bool) (r : Receipt) (x : RecordedProductView R)
      → to_result b r ≡ ok x
      → to_result true r ≡ ok (record x { replayed = true })
  unfolding to_result
  to_result-replayed b r x h =
      let (t, a, e₁, e₂, same) = to_result_inv b r x h in
      rw (e₁, e₂) (ap (λ (y : RecordedProductView R). ok (record y { replayed = true })) same)

  -- Completing a receipt leaves its result, but for the response.
  to_result-completed :
      IsJson R
      → (r : Receipt) (x : RecordedProductView R) (now : ℕ) (response : R) → to_result true r ≡ ok x
      → to_result true (record r {
        status = completed;
        response_json = some (j.dumps response);
        updated_at = now;
      })
        ≡ ok (record x { completed_response = some response })
  unfolding to_result stored_response read_stored
  to_result-completed laws r x now response h =
      let (t, a, e₁, e₂, same) = to_result_inv true r x h in
      let present : (j.dumps response == "") ≡ false =
        ground (arith, string_eq.beq_iff (j.dumps response) "", laws.dumps-ne-empty response) in
      rw (e₁, present, laws.loads-dumps response)
        (ap (λ (y : RecordedProductView R). ok (record y { completed_response = some response }))
          same)

  to_result-receipt_id :
      (b : Bool) (r : Receipt) (x : RecordedProductView R)
      → to_result b r ≡ ok x
      → r.receipt_id ≡ x.receipt_id
  to_result-receipt_id b r x h =
      let (_, _, _, _, same) = to_result_inv b r x h in
      ap (λ (y : RecordedProductView R). y.receipt_id) same

  pub complete-HasReceipt :
      IsJson R
      → (customer key fingerprint : List ℕ) (x : RecordedProductView R) (answer : Option R)
        (now : ℕ) (id : List ℕ) (response : R) (db db' : Rows)
      → HasReceipt customer key fingerprint x answer db
      → complete now id response db ≡ ok db'
      → HasReceipt customer key fingerprint x
          (if id == x.receipt_id then some response else answer)
          db'
  unfolding complete find_row is_receipt_of
  complete-HasReceipt laws customer key fingerprint x answer now id response db db' s h =
      let (old, here, h₁) = or_raise_inv (get id db.receipts) missing _ _ h in
      let r = s.receipt in
      let new : Receipt = record old {
        status = completed;
        response_json = some (j.dumps response);
        updated_at = now;
      } in
      let after : record db { receipts = put id new db.receipts } ≡ db' = ok-injective _ _ h₁ in
      let own : r.receipt_id ≡ x.receipt_id = to_result-receipt_id true r _ s.result in
      let under : old.receipt_id ≡ id = get-IsKeyed id db.receipts old s.keyed here in
      let keyed : IsKeyed (put id new db.receipts) =
        subst (λ i. IsKeyed (put i new db.receipts)) under (put-IsKeyed new db.receipts s.keyed) in
      let there = find_first-IsKeyed (is_receipt_of customer key) db.receipts r s.keyed s.found in
      let still =
        find_first-put (is_receipt_of customer key) id old new db.receipts r here refl s.found in
      elim (Bool-cases (id == x.receipt_id)) [
        | inl q ↦
            let is_id : r.receipt_id ≡ id = own ∙ sym ((codes_eq.beq_iff id x.receipt_id).0 q) in
            let is_old : old ≡ r =
              some-injective _ _ (sym here ∙ ap (λ i. get i db.receipts) (sym is_id) ∙ there) in
            let found : find_first (is_receipt_of customer key) (rows (put id new db.receipts))
                ≡ some new =
              elim still [
                | inl kept ↦
                    let at_id =
                      find_first-IsKeyed (is_receipt_of customer key) (put id new db.receipts) r
                        keyed kept in
                    kept
                    ∙ sym at_id
                    ∙ ap (λ i. get i (put id new db.receipts)) is_id
                    ∙ get-put_self id new db.receipts
                | inr (_, hit) ↦ hit
              ] in
            rw⁻¹ after (
              rw q (record {
                keyed = keyed;
                receipt = new;
                found = found;
                same = ap (λ (o : Receipt). o.fingerprint) is_old ∙ s.same;
                result = to_result-completed laws old _ now response (rw (sym is_old) at s.result);
              }))
        | inr q ↦
            let found : find_first (is_receipt_of customer key) (rows (put id new db.receipts))
                ≡ some r =
              elim still [
                | inl kept ↦ kept
                | inr (is_old, _) ↦
                    let e : id ≡ x.receipt_id =
                      sym under ∙ ap (λ (o : Receipt). o.receipt_id) (sym is_old) ∙ own in
                    absurd (false≢true (sym q ∙ (codes_eq.beq_iff id x.receipt_id).1 e))
              ] in
            rw⁻¹ after (
              rw q (record {
                keyed = keyed;
                receipt = r;
                found = found;
                same = s.same;
                result = s.result;
              }))
      ]

  replay_inv :
      (db db' : Rows) (r : Receipt) (fingerprint : List ℕ) (x : RecordedProductView R)
      → replay db r fingerprint ≡ ok (db', x)
      → (r.fingerprint ≡ fingerprint) × (db ≡ db') × (to_result true r ≡ ok x)
  unfolding replay
  replay_inv db db' r fingerprint x h =
      let (_, e₁, h₁) = >>=_inv (validate_fingerprint r fingerprint) _ _ h in
      let (y, e₂, h₂) = >>=_inv (to_result true r) _ _ h₁ in
      let pair = ok-injective _ _ h₂ in
      (
        ground (arith, e₁, codes_eq.beq_iff r.fingerprint fingerprint),
        ap (λ p. p.0) pair,
        e₂ ∙ ap (λ p. ok (p.1)) pair,
      )

  module _ ⦃u : Unicode⦄ ⦃jp : Json Payload⦄ (receipt_id : List ℕ → List ℕ → List ℕ) where
    pub record_new_inv :
        (env : Surroundings) (q : Request) (db db' : Rows) (x : RecordedProductView R)
        → record_new receipt_id env q db ≡ ok (db', x)
        → (r : Receipt) × IsAdded receipt_id env q db db' r × (to_result false r ≡ ok x)
    unfolding record_new
    record_new_inv env q db db' x h =
        let ((d, r), e₁, h₁) = >>=_inv (add_view receipt_id env q db) _ _ h in
        let (y, e₂, h₂) = >>=_inv (to_result false r) _ _ h₁ in
        let pair = ok-injective _ _ h₂ in
        (
          r,
          add_view-IsAdded receipt_id env q db db' r
              (e₁ ∙ ap (λ (p : Rows × RecordedProductView R). ok (p.0, r)) pair),
          e₂ ∙ ap (λ (p : Rows × RecordedProductView R). ok (p.1)) pair,
        )

    pub view-HasReceipt :
        (customer key fingerprint : List ℕ) (x y : RecordedProductView R) (answer : Option R)
        (env : Surroundings) (q : Request) (db db' : Rows) (o : Option Receipt)
        → HasReceipt customer key fingerprint x answer db
        → recorded receipt_id env q db o ≡ ok (db', y)
        → HasReceipt customer key fingerprint x answer db'
    unfolding recorded find_row
    view-HasReceipt customer key fingerprint x y answer env q db db' (some r') h k =
        let (_, stays, _) = replay_inv db db' r' q.fingerprint y k in rw⁻¹ stays h
    view-HasReceipt customer key fingerprint x y answer env q db db' none h k =
        let (n, added, _) = record_new_inv env q db db' y k in
        record {
          keyed = add_view-IsKeyed receipt_id env q db db' n added h.keyed;
          receipt = h.receipt;
          found = rw (added_rows receipt_id env q db db' n added) (
              find_first-append (is_receipt_of customer key) (rows db.receipts) (n ∷ []) h.receipt
                h.found);
          same = h.same;
          result = h.result;
        }

    -- The receipt of a view that was recorded or replayed.
    pub recorded-HasReceipt :
        (x : RecordedProductView R) (env : Surroundings) (q : Request) (db db' : Rows)
        (o : Option Receipt)
        → IsKeyed db.receipts
        → find_row q.customer_id q.idempotency_key db ≡ o
        → recorded receipt_id env q db o ≡ ok (db', x)
        → HasReceipt q.customer_id q.idempotency_key q.fingerprint x x.completed_response db'
    unfolding recorded find_row new_receipt is_receipt_of
    recorded-HasReceipt x env q db db' (some r) keyed found h =
        let (same, stays, res) = replay_inv db db' r q.fingerprint x h in
        record {
          keyed = rw⁻¹ stays keyed;
          receipt = r;
          found = rw⁻¹ stays found;
          same = same;
          result = to_result-replayed true r x res;
        }
    recorded-HasReceipt x env q db db' none keyed found h =
        let (r, added, res) = record_new_inv env q db db' x h in
        let own : is_receipt_of q.customer_id q.idempotency_key r ≡ true =
          rw (added.is_receipt, beq_self q.customer_id, beq_self q.idempotency_key) refl in
        record {
          keyed = add_view-IsKeyed receipt_id env q db db' r added keyed;
          receipt = r;
          found = rw (added_rows receipt_id env q db db' r added) (
              find_first-last (is_receipt_of q.customer_id q.idempotency_key) (rows db.receipts) r
                found own);
          same = ap (λ (n : Receipt). n.fingerprint) added.is_receipt;
          result = to_result-replayed false r x res;
        }
