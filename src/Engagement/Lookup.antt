-- ===== src/Engagement/Lookup.antt =====
-- How the scan for a receipt goes on after rows are added or updated, and what a recorded view has added.
use mathlib.Core.Path.{subst}
use neutail.Base.{
  ok-injective, >>=_inv, ℕ, ◌≡◌, refl, sym, ap, ◌∙◌, ◌⊎◌, inl, inr, Bool, true, false, ◌&&◌, none,
  some, List, [], ◌∷◌, ◌++◌, arith, Bool-cases, Option-cases, or_default, ◌==◌, nat_eq, string_eq,
  pair_eq, ok, require,
}
use neutail.Base.Json.{Json}
use neutail.Base.Lists.{find_first}
use neutail.Base.Table.{Table, get, put, rows}
use neutail.Base.Text.{Unicode, codes_eq, strip}
use neutail.Engagement.Schema.{
  ClickstreamEvent, Product, UpsellTrigger, Payload, OutboxRow, Receipt, Rows, Error,
}
use neutail.Engagement.{
  Request, Surroundings, add_view, behavior_event, new_receipt, required, views_of, trigger_of,
  add_outbox, insert, get_product, is_available, store_view, view_product,
}

module _ {V : Type 0} where
  pub insert_inv :
      (k : List ℕ) (v : V) (t t' : Table (List ℕ) V)
      → insert k v t ≡ ok t'
      → (get k t ≡ none) × (t' ≡ put k v t)
  insert_inv k v t t' h = elim (Option-cases (get k t)) [
    | inl q ↦ (q, ground (arith, rw q at h))
    | inr (w, q) ↦ cc (rw q at h)
  ]

  pub rows-put_new :
      (k : List ℕ) (v : V) (t : Table (List ℕ) V)
      → get k t ≡ none
      → rows (put k v t) ≡ rows t ++ v ∷ []
  unfolding get put
  rows-put_new k v [] h = refl
  rows-put_new k v ((i, w) ∷ t) h = elim (Bool-cases (i == k)) [
    | inl q ↦ cc (rw q at h)
    | inr q ↦ rw q (ap (λ rest. w ∷ rest) (rows-put_new k v t (rw q at h)))
  ]

  pub find_first-append :
      (p : V → Bool) (xs ys : List V) (v : V)
      → find_first p xs ≡ some v
      → find_first p (xs ++ ys) ≡ some v
  find_first-append p [] ys v h = cc
  find_first-append p (x ∷ xs) ys v h = elim (Bool-cases (p x)) [
    | inl q ↦ rw q (rw q at h)
    | inr q ↦ rw q (find_first-append p xs ys v (rw q at h))
  ]

  pub find_first-last :
      (p : V → Bool) (xs : List V) (v : V)
      → find_first p xs ≡ none
      → p v ≡ true
      → find_first p (xs ++ v ∷ []) ≡ some v
  find_first-last p [] v h q = rw q refl
  find_first-last p (x ∷ xs) v h q = elim (Bool-cases (p x)) [
    | inl e ↦ cc (rw e at h)
    | inr e ↦ rw e (find_first-last p xs v (rw e at h) q)
  ]

  -- An update in place of a row that the test does not tell from the old one.
  pub find_first-put :
      (p : V → Bool) (k : List ℕ) (old new : V) (t : Table (List ℕ) V) (v : V)
      → get k t ≡ some old
      → p new ≡ p old
      → find_first p (rows t) ≡ some v
      → (find_first p (rows (put k new t)) ≡ some v)
        ⊎ ((v ≡ old) × (find_first p (rows (put k new t)) ≡ some new))
  unfolding get put
  find_first-put p k old new [] v g e h = cc
  find_first-put p k old new ((i, w) ∷ t) v g e h = elim (Bool-cases (i == k)) [
    | inl q ↦ let same : w ≡ old = ground (arith, rw q at g) in rw q (updated (p w) refl same h)
    | inr q ↦ rw q (passed (p w) refl h (λ h'. find_first-put p k old new t v (rw q at g) e h'))
  ]
    where
      updated :
          (b : Bool)
          → p w ≡ b
          → w ≡ old
          → find_first p (w ∷ rows t) ≡ some v
          → (find_first p (new ∷ rows t) ≡ some v)
            ⊎ ((v ≡ old) × (find_first p (new ∷ rows t) ≡ some new))
      updated true b same h =
          let hit : p new ≡ true = e ∙ ap p (sym same) ∙ b in
          inr (ground (arith, rw b at h, same), rw hit refl)
      updated false b same h =
          let miss : p new ≡ false = e ∙ ap p (sym same) ∙ b in inl (rw miss (rw b at h))

      passed :
          (b : Bool)
          → p w ≡ b
          → find_first p (w ∷ rows t) ≡ some v
          → (find_first p (rows t) ≡ some v
              → (find_first p (rows (put k new t)) ≡ some v)
                ⊎ ((v ≡ old) × (find_first p (rows (put k new t)) ≡ some new)))
          → (find_first p (w ∷ rows (put k new t)) ≡ some v)
            ⊎ ((v ≡ old) × (find_first p (w ∷ rows (put k new t)) ≡ some new))
      passed true b h later = inl (rw b (rw b at h))
      passed false b h later = rw b (later (rw b at h))

-- What a new view has added to the rows.
pub record IsAdded ⦃u : Unicode⦄ ⦃jp : Json Payload⦄ ⦃jt : Json UpsellTrigger⦄
    (receipt_id : List ℕ → List ℕ → List ℕ) (env : Surroundings) (q : Request) (db db' : Rows)
    (r : Receipt) : Type 0 where
  pub product : Product
  pub clickstream : Table (List ℕ) ClickstreamEvent
  pub outbox : Table (List ℕ) OutboxRow
  pub count : ℕ
  pub found : get_product q.sku db.products ≡ ok product
  pub new_event : insert env.event_id (behavior_event env q product) db.clickstream ≡ ok clickstream
  pub counted :
      count
      ≡ views_of (strip q.customer_id) (strip q.session_id) (strip (strip product.sku)) clickstream
  pub added_outbox : add_outbox env q product (trigger_of product count) count db.outbox ≡ ok outbox
  pub is_receipt : r ≡ new_receipt receipt_id env q product count
  pub is_new : get r.receipt_id db.receipts ≡ none
  pub result : db' ≡ record db {
    clickstream = clickstream;
    outbox = outbox;
    receipts = put r.receipt_id r db.receipts;
  }

module _ ⦃u : Unicode⦄ where
  required_inv : (value k : List ℕ) → required value ≡ ok k → k ≡ strip value
  required_inv value k h = ground (arith, h)

  views_same :
      (a a' b b' c c' : List ℕ) (t : Table (List ℕ) ClickstreamEvent)
      → a ≡ a'
      → b ≡ b'
      → c ≡ c'
      → views_of a b c t ≡ views_of a' b' c' t
  views_same a a' b b' c c' t e f g = rw (e, f, g) refl

  module _ ⦃jp : Json Payload⦄ ⦃jt : Json UpsellTrigger⦄
      (receipt_id : List ℕ → List ℕ → List ℕ) where
    store_view-IsAdded :
        (env : Surroundings) (q : Request) (p : Product)
        (clickstream : Table (List ℕ) ClickstreamEvent) (count : ℕ) (db db' : Rows) (r : Receipt)
        → get_product q.sku db.products ≡ ok p
        → insert env.event_id (behavior_event env q p) db.clickstream ≡ ok clickstream
        → count
          ≡ views_of (strip q.customer_id) (strip q.session_id) (strip (strip p.sku)) clickstream
        → store_view receipt_id env q p clickstream count db ≡ ok (db', r)
        → IsAdded receipt_id env q db db' r
    unfolding store_view
    store_view-IsAdded env q p clickstream count db db' r g e c h =
        let (outbox, e₁, h₁) =
          >>=_inv (add_outbox env q p (trigger_of p count) count db.outbox) _ _ h in
        let n = new_receipt receipt_id env q p count in
        let (receipts, e₂, h₂) = >>=_inv (insert n.receipt_id n db.receipts) _ _ h₁ in
        let (free, same) = insert_inv n.receipt_id n db.receipts receipts e₂ in
        let pair = ok-injective _ _ h₂ in
        let is_r : n ≡ r = ap (λ x. x.1) pair in
        record {
          product = p;
          found = g;
          clickstream = clickstream;
          outbox = outbox;
          count = count;
          new_event = e;
          counted = c;
          added_outbox = e₁;
          is_receipt = sym is_r;
          is_new = subst (λ (x : Receipt). get x.receipt_id db.receipts ≡ none) is_r free;
          result =
              sym (ap (λ x. x.0) pair)
              ∙ ap
                  (λ (t : Table (List ℕ) Receipt). record db {
                    clickstream = clickstream;
                    outbox = outbox;
                    receipts = t;
                  })
                  same
              ∙ ap
                  (λ (x : Receipt). record db {
                    clickstream = clickstream;
                    outbox = outbox;
                    receipts = put x.receipt_id x db.receipts;
                  })
                  is_r;
        }

    view_product-IsAdded :
        (env : Surroundings) (q : Request) (p : Product) (db db' : Rows) (r : Receipt)
        → get_product q.sku db.products ≡ ok p
        → view_product receipt_id env q p db ≡ ok (db', r)
        → IsAdded receipt_id env q db db' r
    unfolding view_product
    view_product-IsAdded env q p db db' r g h =
        let (clickstream, e₁, h₁) =
          >>=_inv (insert env.event_id (behavior_event env q p) db.clickstream) _ _ h in
        let (customer, e₂, h₂) = >>=_inv (required q.customer_id) _ _ h₁ in
        let (session, e₃, h₃) = >>=_inv (required q.session_id) _ _ h₂ in
        let (sku, e₄, h₄) = >>=_inv (required (strip p.sku)) _ _ h₃ in
        let count : views_of customer session sku clickstream
            ≡ views_of (strip q.customer_id) (strip q.session_id) (strip (strip p.sku))
                clickstream =
          views_same customer _ session _ sku _ clickstream (required_inv q.customer_id customer e₂)
            (required_inv q.session_id session e₃) (required_inv (strip p.sku) sku e₄) in
        store_view-IsAdded env q p clickstream _ db db' r g e₁ count h₄

    pub add_view-IsAdded :
        (env : Surroundings) (q : Request) (db db' : Rows) (r : Receipt)
        → add_view receipt_id env q db ≡ ok (db', r)
        → IsAdded receipt_id env q db db' r
    unfolding add_view
    add_view-IsAdded env q db db' r h =
        let (p, g, h₁) = >>=_inv (get_product q.sku db.products) _ _ h in
        let (_, _, h₂) =
          >>=_inv
            (require (or_default false p.active && is_available (strip p.sku) db.inventory)
              Error.unavailable)
            _ _ h₁ in
        view_product-IsAdded env q p db db' r g h₂
