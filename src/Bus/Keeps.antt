-- ===== src/Bus/Keeps.antt =====
-- A completed delivery stays completed, with its response, whatever the handlers do later.
use neutail.Base.{
  ℕ, String, ◌≡◌, refl, ap, ◌∙◌, ◌≢◌, inl, inr, Option, none, some, List, [], ◌∷◌, arith,
  Option-cases, nat_eq, string_eq, pair_eq, Outcome, ok, raised,
}
use neutail.Base.Json.{Json, IsJson}
use neutail.Base.Table.{get, put, get-put_self, get-put_ne}
use neutail.Bus.Schema.{Delivery, DeliveryKey, Rows, completed, failed}
use neutail.Bus.Delivery.{
  Error, completed_delivery, claim_delivery, fail_delivery, complete_delivery,
}
use neutail.Bus.{round, go_on, settle, Event, State, Subscriber, Responses, attempt, deliver}

claim-other :
    (now : ℕ) (k key : DeliveryKey) (db : Rows)
    → k ≢ key
    → get key (claim_delivery now k db).deliveries ≡ get key db.deliveries
unfolding claim_delivery
claim-other now k key db ne = get-put_ne k key _ db.deliveries ne

module _ {V : Type 0} ⦃j : Json V⦄ where
  -- The delivery is completed and its stored response reads as `v`.
  abbrev pub Delivered : Rows → DeliveryKey → V → Type 0
  Delivered db key v = completed_delivery key db ≡ ok (some v)

  -- The row says all.
  pub Delivered-row :
      (key : DeliveryKey) (a b : Rows) (v : V)
      → get key b.deliveries ≡ get key a.deliveries
      → Delivered a key v
      → Delivered b key v
  unfolding completed_delivery
  Delivered-row key a b v e h = rw (e, completed_delivery) (unfold completed_delivery in h)

  pub complete-Delivered :
      IsJson V
      → (now : ℕ) (key : DeliveryKey) (v : V) (db db' : Rows)
      → complete_delivery now key v db ≡ ok db'
      → Delivered db' key v
  unfolding complete_delivery completed_delivery
  complete-Delivered laws now key v db db' h = elim (Option-cases (get key db.deliveries)) [
    | inl e ↦ ground (arith, h, e)
    | inr (d, e) ↦
        let d' : Delivery = record d {
          status = completed;
          response_json = some (j.dumps v);
          last_error = none;
          updated_at = now;
        } in
        ground (arith, h, e, get-put_self key d' db.deliveries, laws.loads-dumps v)
  ]

  settle-other :
      {W : Type 0} (now : ℕ) (k key : DeliveryKey) (db : Rows) (o : Outcome String V × W)
      → k ≢ key
      → get key (settle now k db o).1.db.deliveries ≡ get key db.deliveries
  unfolding settle fail_delivery complete_delivery
  settle-other now k key db (raised x, w) ne = elim (Option-cases (get k db.deliveries)) [
    | inl e ↦ ground (arith, e)
    | inr (d, e) ↦ ground (
      arith,
      e,
      get-put_ne k key (record d { status = failed; last_error = some x; updated_at = now })
          db.deliveries ne,
    )
  ]
  settle-other now k key db (ok v, w) ne = elim (Option-cases (get k db.deliveries)) [
    | inl e ↦ ground (arith, e)
    | inr (d, e) ↦ ground (
      arith,
      e,
      get-put_ne k key
          (record d {
            status = completed;
            response_json = some (j.dumps v);
            last_error = none;
            updated_at = now;
          })
          db.deliveries ne,
    )
  ]

  -- An attempt touches no delivery but its own, and no outbox row.
  pub attempt-other :
      {W : Type 0} (now : ℕ) (event : Event V) (sub : Subscriber V W) (s : State W)
      (key : DeliveryKey)
      → (event.outbox_id, sub.0) ≢ key
      → get key (attempt now event sub s).1.db.deliveries ≡ get key s.db.deliveries
  unfolding attempt
  attempt-other now event (name, handler) s key ne =
      settle-other now (event.outbox_id, name) key _ (handler event s.world) ne
      ∙ claim-other now (event.outbox_id, name) key s.db ne

  outbox-settle :
      {W : Type 0} (now : ℕ) (k : DeliveryKey) (db : Rows) (o : Outcome String V × W)
      → (settle now k db o).1.db.outbox ≡ db.outbox
  unfolding settle fail_delivery complete_delivery
  outbox-settle now k db (raised x, w) = ground arith
  outbox-settle now k db (ok v, w) = ground arith

  pub outbox-attempt :
      {W : Type 0} (now : ℕ) (event : Event V) (sub : Subscriber V W) (s : State W)
      → (attempt now event sub s).1.db.outbox ≡ s.db.outbox
  unfolding attempt claim_delivery
  outbox-attempt now event (name, handler) s =
      outbox-settle now (event.outbox_id, name) _ (handler event s.world)

  settle-Delivered :
      {W : Type 0}
      → IsJson V
      → (now : ℕ) (k : DeliveryKey) (db : Rows) (o : Outcome String V × W) (s' : State W) (v : V)
      → settle now k db o ≡ (ok v, s')
      → Delivered s'.db k v
  unfolding settle
  settle-Delivered laws now k db (raised x, w) s' v h = ground (arith, h)
  settle-Delivered laws now k db (ok u, w) s' v h = go (complete_delivery now k u db) refl
    where
      go : (c : Outcome Error Rows) → complete_delivery now k u db ≡ c → Delivered s'.db k v
      go (raised e) q = ground (arith, h, q)
      go (ok db') q = ground (arith, h, q, complete-Delivered laws now k u db db' q)

  pub attempt-Delivered :
      {W : Type 0}
      → IsJson V
      → (now : ℕ) (event : Event V) (sub : Subscriber V W) (s s' : State W) (v : V)
      → attempt now event sub s ≡ (ok v, s')
      → Delivered s'.db (event.outbox_id, sub.0) v
  unfolding attempt
  attempt-Delivered laws now event (name, handler) s s' v h =
      settle-Delivered laws now (event.outbox_id, name) _ (handler event s.world) s' v h

  -- What the rest of the loop keeps, an attempt before it keeps.
  go_on-keeps :
      {W : Type 0} (continue : Responses V → State W → Outcome Error (Responses V) × State W)
      (name : String) (acc : Responses V) (key : DeliveryKey) (v : V)
      (a : Outcome Error V × State W)
      → ((acc : Responses V) (s : State W)
          → Delivered s.db key v
          → Delivered (continue acc s).1.db key v)
      → Delivered a.1.db key v
      → Delivered (go_on continue name acc a).1.db key v
  unfolding go_on
  go_on-keeps continue name acc key v (raised e, s) keep h = h
  go_on-keeps continue name acc key v (ok x, s) keep h = keep (put name x acc) s h

  round-keeps :
      {W : Type 0} (now : ℕ) (event : Event V) (sub : Subscriber V W)
      (continue : Responses V → State W → Outcome Error (Responses V) × State W) (acc : Responses V)
      (s : State W) (key : DeliveryKey) (v : V) (o : Outcome Error (Option V))
      → completed_delivery (event.outbox_id, sub.0) s.db ≡ o
      → ((acc : Responses V) (s : State W)
          → Delivered s.db key v
          → Delivered (continue acc s).1.db key v)
      → Delivered s.db key v
      → Delivered (round now event sub continue acc s o).1.db key v
  unfolding round
  round-keeps now event sub continue acc s key v (raised e) q keep h = h
  round-keeps now event sub continue acc s key v (ok (some x)) q keep h = keep (put sub.0 x acc) s h
  round-keeps now event sub continue acc s key v (ok none) q keep h =
      go_on-keeps continue sub.0 acc key v (attempt now event sub s) keep (
        Delivered-row key s.db _ v
          (attempt-other now event sub s key
            (λ same. cc (ap (λ (k : DeliveryKey). completed_delivery {V = V} k s.db) same)))
          h)

  -- Every completed delivery survives the loop over the subscribers, however it ends.
  pub deliver-keeps :
      {W : Type 0} (now : ℕ) (event : Event V) (subs : List (Subscriber V W)) (acc : Responses V)
      (s : State W) (key : DeliveryKey) (v : V)
      → Delivered s.db key v
      → Delivered (deliver now event subs acc s).1.db key v
  unfolding deliver
  deliver-keeps now event [] acc s key v h = h
  deliver-keeps now event (sub ∷ rest) acc s key v h =
      round-keeps now event sub (deliver now event rest) acc s key v _ refl
        (λ acc s. deliver-keeps now event rest acc s key v) h
