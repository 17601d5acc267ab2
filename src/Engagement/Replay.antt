-- ===== src/Engagement/Replay.antt =====
-- A view is recorded once: the same request again is answered from its receipt, whatever came between.
use neutail.Base.{
  if◌then◌else◌, Bool-cases, ◌⊎◌, ℕ, ◌≡◌, refl, sym, ◌∙◌, ◌≢◌, inl, inr, true, false, Option, some,
  List, arith, ◌==◌, nat_eq, string_eq, pair_eq, ok, raised,
}
use mathlib.Core.Bool.{false≢true}
use neutail.Base.{if◌then◌else◌}
use neutail.Base.Json.{Json, IsJson}
use neutail.Base.Text.{Unicode, codes_eq}
use neutail.Engagement.Schema.{UpsellTrigger, Payload, Rows, RecordedProductView, conflict}
use neutail.Engagement.{Request, Surroundings, record_product_view, recorded, replay, complete}
use neutail.Engagement.Receipts.{
  HasReceipt, complete-HasReceipt, view-HasReceipt, recorded-HasReceipt,
}
use neutail.Engagement.Keyed.{IsKeyed}

module _ ⦃u : Unicode⦄ ⦃jp : Json Payload⦄ ⦃jt : Json UpsellTrigger⦄
    (receipt_id : List ℕ → List ℕ → List ℕ) (R : Type 0) ⦃j : Json R⦄ where
  -- Any calls of the service in turn.
  pub data Later (db : Rows) : Rows → Type 0 where
    at_once : Later db db
    viewed :
        {db' db'' : Rows} (env : Surroundings) (q : Request) (x : RecordedProductView R)
        → Later db db'
        → record_product_view receipt_id env q db' ≡ ok (db'', x)
        → Later db db''
    finished :
        {db' db'' : Rows} (now : ℕ) (id : List ℕ) (response : R)
        → Later db db'
        → complete now id response db' ≡ ok db''
        → Later db db''

  -- The response that the last completion of the receipt has stored, or the one before all of them.
  abbrev pub last_response : {db db' : Rows} → Later db db' → List ℕ → Option R → Option R
  last_response at_once id a = a
  last_response (viewed env q x l e) id a = last_response l id a
  last_response (finished now id' response l e) id a =
      let rest = last_response l id a in if id' == id then some response else rest

module _ {R : Type 0} ⦃j : Json R⦄ ⦃jt : Json UpsellTrigger⦄ ⦃u : Unicode⦄ ⦃jp : Json Payload⦄
    (receipt_id : List ℕ → List ℕ → List ℕ) where
  Later-HasReceipt :
      IsJson R
      → (customer key fingerprint : List ℕ) (x : RecordedProductView R) (answer : Option R)
        {db db' : Rows}
      → (l : Later receipt_id R db db') → HasReceipt customer key fingerprint x answer db
      → HasReceipt customer key fingerprint x (last_response receipt_id R l x.receipt_id answer) db'
  unfolding record_product_view
  Later-HasReceipt laws customer key fingerprint x answer at_once h = h
  Later-HasReceipt laws customer key fingerprint x answer (viewed {db'} {db''} env q y l e) h =
      view-HasReceipt receipt_id customer key fingerprint x y _ env q db' db'' _
        (Later-HasReceipt laws customer key fingerprint x answer l h) e
  Later-HasReceipt laws customer key fingerprint x answer
        (finished {db'} {db''} now id response l e) h =
      complete-HasReceipt laws customer key fingerprint x _ now id response db' db''
        (Later-HasReceipt laws customer key fingerprint x answer l h) e

  -- Once a view is recorded, the customer's request with that key and fingerprint is answered with
  -- the same result, marked as replayed, with the response that the receipt's last completion
  -- stored, whatever views are recorded and completed in between, and no row changes; with another
  -- fingerprint it is a conflict. Each receipt stands under its own id at the start.
  pub record_product_view-replays :
      IsJson R
      → (env env' : Surroundings) (q q' : Request) (x : RecordedProductView R) (db db' db'' : Rows)
      → IsKeyed db.receipts
      → record_product_view receipt_id env q db ≡ ok (db', x)
      → (l : Later receipt_id R db' db'') → q'.customer_id ≡ q.customer_id
      → q'.idempotency_key ≡ q.idempotency_key
      → ((q'.fingerprint ≡ q.fingerprint)
          × (record_product_view receipt_id env' q' db''
              ≡ ok (
                db'',
                record x {
                  replayed = true;
                  completed_response =
                      last_response receipt_id R l x.receipt_id x.completed_response;
                },
              )))
        ⊎ ((q'.fingerprint ≢ q.fingerprint)
            × (record_product_view receipt_id {R = R} env' q' db'' ≡ raised conflict))
  unfolding record_product_view recorded replay
  record_product_view-replays laws env env' q q' x db db' db'' keyed h later c k =
      let s =
        Later-HasReceipt laws q.customer_id q.idempotency_key q.fingerprint x _ later
          (recorded-HasReceipt receipt_id x env q db db' _ keyed refl h) in
      let r = s.receipt in
      let fits : q'.fingerprint ≡ q.fingerprint → (r.fingerprint == q'.fingerprint) ≡ true =
        λ f. (codes_eq.beq_iff r.fingerprint q'.fingerprint).1 (s.same ∙ sym f) in
      let unfit : q'.fingerprint ≢ q.fingerprint → (r.fingerprint == q'.fingerprint) ≡ false =
        λ f. ground (arith, f, s.same, codes_eq.beq_iff r.fingerprint q'.fingerprint) in
      elim (Bool-cases (q'.fingerprint == q.fingerprint)) [
        | inl e ↦
            let f = (codes_eq.beq_iff q'.fingerprint q.fingerprint).0 e in
            inl (f, rw (c, k, s.found, fits f, s.result) refl)
        | inr e ↦
            let f : q'.fingerprint ≢ q.fingerprint =
              λ w. false≢true (sym e ∙ (codes_eq.beq_iff q'.fingerprint q.fingerprint).1 w) in
            inr (f, rw (c, k, s.found, unfit f) refl)
      ]
