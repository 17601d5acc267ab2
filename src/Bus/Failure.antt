-- ===== src/Bus/Failure.antt =====
-- A dispatch that raises: nothing completed is lost, and the event is not published.
use neutail.Bus.Replay.{deliveries-record_event_attempt}
use neutail.Base.{
  ℕ, ◌+◌, String, ◌≡◌, refl, ap, ◌∙◌, inl, inr, Option, none, some, List, [], ◌∷◌, map, arith,
  Bool-cases, nat_eq, string_eq, pair_eq, Outcome, ok, raised,
}
use neutail.Base.Json.{Json}
use neutail.Base.Lists.{All, All-map}
use neutail.Base.Table.{get, put, get-put_self}
use neutail.Bus.Schema.{is_pending, DeliveryKey, OutboxEvent, Rows}
use neutail.Bus.Delivery.{Error, completed_delivery, record_event_attempt, mark_published}
use neutail.Bus.{
  Event, State, Subscriber, Responses, attempt, go_on, round, deliver, dispatch_to, publish,
}
use neutail.Bus.Keeps.{Delivered, Delivered-row, deliver-keeps, outbox-attempt}

-- What stays of a delivery and of the event's row when a dispatch raises.
pub record IsHeld {W : Type 0} (id : String) (e e' : OutboxEvent) (s' : State W) : Type 0 where
  pub event_row : get id s'.db.outbox ≡ some e'
  pub status : e'.status ≡ e.status

pub attempted_row :
    {W : Type 0} (id : String) (e : OutboxEvent) (s : State W)
    → get id s.db.outbox ≡ some e
    → (e' : OutboxEvent) × (get id (record_event_attempt id s.db).outbox ≡ some e')
      × (e'.status ≡ e.status)
unfolding record_event_attempt
attempted_row id e s q = elim (Bool-cases (is_pending e.status)) [
  | inl p ↦
      let e' = record e { attempt_count = e.attempt_count + 1 } in
      (e', ground (arith, q, p, get-put_self id e' s.db.outbox), refl)
  | inr p ↦ (e, ground (arith, q, p), refl)
]

module _ {V : Type 0} ⦃j : Json V⦄ where
  -- The loop leaves the outbox alone.
  go_on-outbox :
      {W : Type 0} (continue : Responses V → State W → Outcome Error (Responses V) × State W)
      (name : String) (acc : Responses V) (a : Outcome Error V × State W)
      → ((acc : Responses V) (s : State W) → (continue acc s).1.db.outbox ≡ s.db.outbox)
      → (go_on continue name acc a).1.db.outbox ≡ a.1.db.outbox
  unfolding go_on
  go_on-outbox continue name acc (raised e, s) keep = refl
  go_on-outbox continue name acc (ok x, s) keep = keep (put name x acc) s

  round-outbox :
      {W : Type 0} (now : ℕ) (event : Event V) (sub : Subscriber V W)
      (continue : Responses V → State W → Outcome Error (Responses V) × State W) (acc : Responses V)
      (s : State W) (o : Outcome Error (Option V))
      → ((acc : Responses V) (s : State W) → (continue acc s).1.db.outbox ≡ s.db.outbox)
      → (round now event sub continue acc s o).1.db.outbox ≡ s.db.outbox
  unfolding round
  round-outbox now event sub continue acc s (raised e) keep = refl
  round-outbox now event sub continue acc s (ok (some x)) keep = keep (put sub.0 x acc) s
  round-outbox now event sub continue acc s (ok none) keep =
      go_on-outbox continue sub.0 acc (attempt now event sub s) keep
      ∙ outbox-attempt now event sub s

  pub outbox-deliver :
      {W : Type 0} (now : ℕ) (event : Event V) (subs : List (Subscriber V W)) (acc : Responses V)
      (s : State W)
      → (deliver now event subs acc s).1.db.outbox ≡ s.db.outbox
  unfolding deliver
  outbox-deliver now event [] acc s = refl
  outbox-deliver now event (sub ∷ rest) acc s =
      round-outbox now event sub (deliver now event rest) acc s
        (completed_delivery (event.outbox_id, sub.0) s.db) (outbox-deliver now event rest)

  -- A publication that raises changes no row behind the loop.
  publish-raised :
      {W : Type 0} (now : ℕ) (event : Event V) (subs : List (Subscriber V W))
      (o : Outcome Error (Responses V) × State W) (x : Error) (s' : State W)
      → publish now event subs o ≡ (raised x, s')
      → s' ≡ o.1
  unfolding publish
  publish-raised now event subs (raised e, s) x s' h = ground (arith, h)
  publish-raised {W} now event subs (ok r, s) x s' h =
      go (mark_published now event.outbox_id (map (λ sub. sub.0) subs) s.db) refl
    where
      go :
          (m : Outcome Error Rows)
          → mark_published now event.outbox_id (map (λ (sub : Subscriber V W). sub.0) subs) s.db ≡ m
          → s' ≡ s
      go (raised e) q = ground (arith, h, q)
      go (ok db) q = ground (arith, h, q)

  -- If a dispatch raises, the event's row keeps its status, so a pending event stays pending, and all
  -- deliveries that were completed, of this and of other events, are still completed with their
  -- responses.
  pub dispatch_to-raised :
      {W : Type 0} (now : ℕ) (event : Event V) (subs : List (Subscriber V W)) (x : Error)
      (e : OutboxEvent) (s s' : State W) (done : List (DeliveryKey × V))
      → dispatch_to now subs event s ≡ (raised x, s')
      → get event.outbox_id s.db.outbox ≡ some e
      → All (λ (d : DeliveryKey × V). Delivered s.db d.0 d.1) done
      → (e' : OutboxEvent) × IsHeld event.outbox_id e e' s'
        × All (λ (d : DeliveryKey × V). Delivered s'.db d.0 d.1) done
  unfolding dispatch_to
  dispatch_to-raised now event [] x e s s' done h q all_done =
      let same : s' ≡ s = ground (arith, h) in
      (e, rw same (record { event_row = q; status = refl }), rw same all_done)
  dispatch_to-raised now event (sub ∷ rest) x e s s' done h q all_done =
      let s₀ = record s { db = record_event_attempt event.outbox_id s.db } in
      let same =
        publish-raised now event (sub ∷ rest) (deliver now event (sub ∷ rest) [] s₀) x s' h in
      let (e', row, status) = attempted_row event.outbox_id e s q in
      let outbox = outbox-deliver now event (sub ∷ rest) [] s₀ in
      (
        e',
        rw same (record { event_row = ap (get event.outbox_id) outbox ∙ row; status = status }),
        rw same (
            All-map
              (λ (d : DeliveryKey × V) k. deliver-keeps now event (sub ∷ rest) [] s₀ d.0 d.1 (
                Delivered-row d.0 s.db s₀.db d.1
                  (ap (get d.0) (deliveries-record_event_attempt event.outbox_id s.db)) k))
              done all_done),
      )
