-- ===== src/Engagement/Third.antt =====
-- The count of a product's views, and the event that the third makes.
use neutail.Base.{
  ok-injective, >>=_inv, ℕ, ◌+◌, ◌≡◌, refl, sym, ap, ◌∙◌, ◌≢◌, ◌⊎◌, inl, inr, Bool, true, false,
  Option, none, some, List, [], ◌∷◌, ◌++◌, arith, ◌==◌, nat_eq, string_eq, pair_eq, beq_self, ok,
  or_raise,
}
use neutail.Base.Json.{Json, ReadsBack}
use mathlib.Core.Bool.{false≢true}
use neutail.Base.Lists.{length, select}
use neutail.Base.Table.{Table, get, rows, get-put_self}
use neutail.Base.Text.{Unicode, codes_eq, strip, strip-strip}
use neutail.Engagement.Schema.{
  ClickstreamEvent, Product, UpsellTrigger, Payload, Receipt, Rows, RecordedProductView, Error,
}
use neutail.Engagement.{
  insert, Request, Surroundings, new_receipt, record_product_view, recorded, find_row, views_of,
  is_view_of, is_text, is_view_event, behavior_event, trigger_of, high_engagement, is_premium,
  add_outbox, outbox_row, get_product, read_stored, required, trigger_text, outbox_of,
}
use neutail.Engagement.Lookup.{insert_inv, rows-put_new}
use neutail.Engagement.Receipts.{record_new_inv, to_result_inv}

or_raise_value {ℓ κ} :
    {E : Type ℓ} {A : Type κ} (o : Option A) (e : E) (b : A)
    → or_raise o e ≡ ok b
    → (a : A) × (o ≡ some a) × (a ≡ b)
or_raise_value none e b h = cc
or_raise_value (some a) e b h = (a, refl, ok-injective a b h)

length-select_last {ℓ} :
    {A : Type ℓ} (p : A → Bool) (xs : List A) (a : A)
    → p a ≡ true
    → length (select p (xs ++ a ∷ [])) ≡ length (select p xs) + 1
length-select_last p [] a h = rw h refl
length-select_last p (x ∷ xs) a h = ground (arith, length-select_last p xs a h)

module _ ⦃u : Unicode⦄ where
  -- The views of the request's product in its session.
  abbrev pub views : Request → Product → Table (List ℕ) ClickstreamEvent → ℕ
  views q p = views_of (strip q.customer_id) (strip q.session_id) (strip p.sku)

  own-view :
      (env : Surroundings) (q : Request) (p : Product)
      → is_view_of (strip q.customer_id) (strip q.session_id) (strip p.sku) (behavior_event env q p)
        ≡ true
  unfolding is_view_of is_text is_view_event behavior_event
  own-view env q p =
      rw (beq_self (strip q.customer_id), beq_self (strip q.session_id), beq_self (strip p.sku))
        refl

  views-insert :
      (env : Surroundings) (q : Request) (p : Product) (t t' : Table (List ℕ) ClickstreamEvent)
      → insert env.event_id (behavior_event env q p) t ≡ ok t'
      → views q p t' ≡ views q p t + 1
  unfolding views_of
  views-insert env q p t t' h =
      let (free, same) = insert_inv env.event_id (behavior_event env q p) t t' h in
      rw (same, rows-put_new env.event_id (behavior_event env q p) t free)
        (length-select_last _ (rows t) (behavior_event env q p) (own-view env q p))

  get_product_inv :
      (sku : List ℕ) (t : Table (List ℕ) Product) (p : Product)
      → get_product sku t ≡ ok p
      → get (strip sku) t ≡ some p
  unfolding get_product
  get_product_inv sku t p h =
      let (k, e, h₁) = >>=_inv (required sku) _ _ h in
      let (p', e', same) = or_raise_value (get k t) Error.unavailable p h₁ in
      let key : k ≡ strip sku = ground (arith, e) in rw⁻¹ key (e' ∙ ap some same)

module _ ⦃jt : Json UpsellTrigger⦄ where
  read-trigger :
      (t : UpsellTrigger)
      → ReadsBack t
      → (o : Option UpsellTrigger) → read_stored jt.loads (some (jt.dumps t)) ≡ ok o
      → o ≡ some t
  unfolding read_stored
  read-trigger t laws o h =
      let present : (jt.dumps t == "") ≡ false =
        ground (arith, string_eq.beq_iff (jt.dumps t) "", laws.not_empty) in
      sym (ok-injective _ _ (rw (present, laws.reads) at h))

module _ ⦃u : Unicode⦄ ⦃jp : Json Payload⦄ ⦃jt : Json UpsellTrigger⦄
    (receipt_id : List ℕ → List ℕ → List ℕ) {R : Type 0} ⦃j : Json R⦄ where
  -- What the view has put in the outbox, and the trigger that it returns.
  pub data Triggered (env : Surroundings) (q : Request) (p : Product) (before : ℕ) (db db' : Rows)
      (x : RecordedProductView R) : Type 0 where
    third :
        is_premium p ≡ true
        → before ≡ 2
        → x.trigger ≡ some (high_engagement p 3)
        → x.outbox_id ≡ some env.outbox_id
        → get env.outbox_id db.outbox ≡ none
        → get env.outbox_id db'.outbox ≡ some (outbox_row env q p (high_engagement p 3) 3)
        → Triggered env q p before db db' x
    plain :
        (is_premium p ≡ false) ⊎ (before ≢ 2)
        → x.trigger ≡ none
        → x.outbox_id ≡ none
        → db'.outbox ≡ db.outbox
        → Triggered env q p before db db' x

  third_case :
      (env : Surroundings) (q : Request) (p : Product)
      → ReadsBack (high_engagement p 3)
      → (before : ℕ) (db db' : Rows) (x : RecordedProductView R) (t : Option UpsellTrigger)
      → is_premium p ≡ true
      → before ≡ 2
      → add_outbox env q p (trigger_of p 3) 3 db.outbox ≡ ok db'.outbox
      → read_stored jt.loads (trigger_text (trigger_of p 3)) ≡ ok t
      → x.trigger ≡ t
      → x.outbox_id ≡ outbox_of env (trigger_of p 3)
      → Triggered env q p before db db' x
  unfolding trigger_of add_outbox trigger_text outbox_of
  third_case env q p laws before db db' x t m two h k e f =
      let tr = high_engagement p 3 in
      let row = outbox_row env q p tr 3 in
      let (free, after) = insert_inv env.outbox_id row db.outbox db'.outbox (rw m at h) in
      third m two (e ∙ read-trigger tr laws t (rw m at k)) (f ∙ (rw m refl)) free
        (rw after (get-put_self env.outbox_id row db.outbox))

  plain_case :
      (env : Surroundings) (q : Request) (p : Product) (before count : ℕ) (db db' : Rows)
      (x : RecordedProductView R) (t : Option UpsellTrigger)
      → (is_premium p ≡ false) ⊎ (before ≢ 2)
      → trigger_of p count ≡ none
      → add_outbox env q p (trigger_of p count) count db.outbox ≡ ok db'.outbox
      → read_stored jt.loads (trigger_text (trigger_of p count)) ≡ ok t
      → x.trigger ≡ t
      → x.outbox_id ≡ outbox_of env (trigger_of p count)
      → Triggered env q p before db db' x
  unfolding add_outbox trigger_text outbox_of read_stored
  plain_case env q p before count db db' x t why absent h k e f =
      plain why (e ∙ sym (ok-injective _ _ (rw absent at k))) (f ∙ (rw absent refl))
        (sym (ok-injective _ _ (rw absent at h)))

  new_receipt-Triggered :
      (env : Surroundings) (q : Request) (p : Product)
      → ReadsBack (high_engagement p 3)
      → (before count : ℕ) (db db' : Rows) (x : RecordedProductView R) (t : Option UpsellTrigger)
      → count ≡ before + 1
      → add_outbox env q p (trigger_of p count) count db.outbox ≡ ok db'.outbox
      → read_stored jt.loads (trigger_text (trigger_of p count)) ≡ ok t
      → x.trigger ≡ t
      → x.outbox_id ≡ outbox_of env (trigger_of p count)
      → Triggered env q p before db db' x
  unfolding trigger_of
  new_receipt-Triggered env q p laws before count db db' x t next h k e f =
      go (is_premium p) (count == 3) refl refl
    where
      go : (b c : Bool) → is_premium p ≡ b → (count == 3) ≡ c → Triggered env q p before db db' x
      go true true m n =
          let three : count ≡ 3 = (nat_eq.beq_iff count 3).0 n in
          third_case env q p laws before db db' x t m (omega (arith, next, three)) (rw three at h)
            (rw three at k) e (rw three at f)
      go false c m n = plain_case env q p before count db db' x t (inl m) (rw m refl) h k e f
      go true false m n =
          plain_case env q p before count db db' x t
            (inr
              (λ two. false≢true (sym n ∙ (nat_eq.beq_iff count 3).1 (omega (arith, next, two)))))
            (rw (m, n) refl) h k e f

  -- A view under a new key that is recorded is one more view of the product in the customer's session. Exactly the third view of a premium
  -- product makes a trigger, and puts a pending event with it in the outbox under the fresh id; no other view does either.
  pub record_product_view-Triggered :
      (env : Surroundings) (q : Request) (db db' : Rows) (x : RecordedProductView R)
      → ((p : Product) → get (strip q.sku) db.products ≡ some p → ReadsBack (high_engagement p 3))
      → find_row q.customer_id q.idempotency_key db ≡ none
      → record_product_view receipt_id env q db ≡ ok (db', x)
      → (p : Product) × (get (strip q.sku) db.products ≡ some p)
        × (x.engagement_count ≡ views q p db.clickstream + 1)
        × (views q p db'.clickstream ≡ views q p db.clickstream + 1)
        × Triggered env q p (views q p db.clickstream) db db' x
  unfolding record_product_view recorded new_receipt
  record_product_view-Triggered env q db db' x laws free h =
      let (r, added, res) = record_new_inv receipt_id env q db db' x (rw free at h) in
      let p = added.product in
      let (t, a, e, _, same) = to_result_inv false r x res in
      let grown : views q p added.clickstream ≡ views q p db.clickstream + 1 =
        views-insert env q p db.clickstream added.clickstream added.new_event in
      let counted : added.count ≡ views q p db.clickstream + 1 =
        added.counted
        ∙ (ap (λ k. views_of (strip q.customer_id) (strip q.session_id) k added.clickstream)
            (strip-strip p.sku))
        ∙ grown in
      let outbox : db'.outbox ≡ added.outbox = ap (λ (d : Rows). d.outbox) added.result in
      (
        p,
        get_product_inv q.sku db.products p added.found,
        ap (λ (v : RecordedProductView R). v.engagement_count) (sym same)
            ∙ ap (λ (n : Receipt). n.engagement_count) added.is_receipt
            ∙ counted,
        ap (λ (d : Rows). views q p d.clickstream) added.result ∙ grown,
        new_receipt-Triggered env q p (laws p (get_product_inv q.sku db.products p added.found)) _
            added.count db db' x t counted (added.added_outbox ∙ ap ok (sym outbox))
            (ap (λ (n : Receipt). read_stored jt.loads n.trigger_json) (sym added.is_receipt) ∙ e)
            (ap (λ (v : RecordedProductView R). v.trigger) (sym same))
            (ap (λ (v : RecordedProductView R). v.outbox_id) (sym same)
              ∙ ap (λ (n : Receipt). n.outbox_id) added.is_receipt),
      )
