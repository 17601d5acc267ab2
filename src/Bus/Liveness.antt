-- ===== src/Bus/Liveness.antt =====
-- A dispatch whose handlers all return, returns.
use neutail.Base.{
  ℕ, ◌≡◌, refl, sym, ap, ◌∙◌, inl, inr, true, Option, none, some, List, [], ◌∷◌, map, Bool-cases,
  ◌==◌, nat_eq, string_eq, pair_eq, Outcome, ok,
}
use mathlib.Core.Path.{subst}
use mathlib.Core.Logic.{◌≢◌}
use mathlib.Core.Bool.{false≢true}
use neutail.Base.Json.{Json, IsJson}
use neutail.Base.Lists.{All}
use neutail.Base.Table.{get, put, get-put_self}
use neutail.Bus.Schema.{OutboxEvent, DeliveryKey, Rows, Delivery, completed}
use neutail.Bus.Delivery.{
  Error, completed_delivery, claimed_delivery, claim_delivery, complete_delivery,
  record_event_attempt,
}
use neutail.Bus.{
  Event, State, Subscriber, Responses, attempt, settle, go_on, round, deliver, publish, dispatch_to,
}
use neutail.Bus.Keeps.{attempt-other, attempt-Delivered}
use neutail.Bus.Failure.{attempted_row, outbox-deliver}
use neutail.Bus.Replay.{mark_published-ok, deliveries-record_event_attempt}

-- Every stored response of a completed delivery reads back.
abbrev pub Readable : (V : Type 0) ⦃j : Json V⦄ → Rows → Type 0
Readable V db = (key : DeliveryKey) → (o : Option V) × (completed_delivery key db ≡ ok o)

module _ {V : Type 0} ⦃j : Json V⦄ where
  -- Every handler returns, whatever the rest of the world is.
  abbrev pub Returns : {W : Type 0} → Event V → List (Subscriber V W) → Type 0
  Returns {W} event =
      All (λ (sub : Subscriber V W). (w : W) → (v : V) × (w' : W) × (sub.1 event w ≡ (ok v, w')))

  Readable-rows : (a b : Rows) → b.deliveries ≡ a.deliveries → Readable V a → Readable V b
  unfolding completed_delivery
  Readable-rows a b e h key =
      let (o, q) = h key in (o, rw (e, completed_delivery) (unfold completed_delivery in q))

  complete-ok :
      (now : ℕ) (key : DeliveryKey) (v : V) (d : Delivery) (db : Rows)
      → get key db.deliveries ≡ some d
      → (db' : Rows) × (complete_delivery now key v db ≡ ok db')
  unfolding complete_delivery
  complete-ok now key v d db q = (
    record db {
      deliveries =
          put key
            (record d {
              status = completed;
              response_json = some (j.dumps v);
              last_error = none;
              updated_at = now;
            })
            db.deliveries;
    },
    rw (q, complete_delivery),
  )

  same_row :
      (key : DeliveryKey) (a b : Rows) (o : Option V)
      → get key b.deliveries ≡ get key a.deliveries
      → completed_delivery key a ≡ ok o
      → completed_delivery key b ≡ ok o
  unfolding completed_delivery
  same_row key a b o e h = rw (e, completed_delivery) (unfold completed_delivery in h)

  module _ {W : Type 0} (laws : IsJson V) (now : ℕ) (event : Event V) where
    attempt_returns :
        (sub : Subscriber V W) (s : State W) (v : V) (w' : W)
        → sub.1 event s.world ≡ (ok v, w')
        → (s' : State W) × (attempt now event sub s ≡ (ok v, s'))
    unfolding attempt settle claim_delivery complete_delivery
    attempt_returns (name, handler) s v w' h =
        let key : DeliveryKey = (event.outbox_id, name) in
        let d = claimed_delivery now (get key s.db.deliveries) in
        let there = get-put_self key d s.db.deliveries in
        let (db', done) = complete-ok now key v d (claim_delivery now key s.db) there in
        (record { db = db'; world = w' }, rw (h, settle) (rw done))

    attempt-Readable :
        (sub : Subscriber V W) (s s' : State W) (v : V)
        → attempt now event sub s ≡ (ok v, s')
        → Readable V s.db
        → Readable V s'.db
    attempt-Readable sub s s' v h readable key =
        elim (Bool-cases ((event.outbox_id, sub.0) == key)) [
          | inl q ↦ (
            some v,
            subst (λ (k : DeliveryKey). completed_delivery k s'.db ≡ ok (some v))
                ((pair_eq.beq_iff (event.outbox_id, sub.0) key).0 q)
                (attempt-Delivered laws now event sub s s' v h),
          )
          | inr q ↦
              let (o, e) = readable key in
              let ne : (event.outbox_id, sub.0) ≢ key = λ same.
                let equal : ((event.outbox_id, sub.0) == key) ≡ true =
                  (pair_eq.beq_iff (event.outbox_id, sub.0) key).1 same in
                false≢true (sym q ∙ equal) in
              let row : get key s'.db.deliveries ≡ get key s.db.deliveries =
                ap (λ (p : Outcome Error V × State W). get key p.1.db.deliveries) (sym h)
                ∙ attempt-other now event sub s key ne in
              (o, same_row key s.db s'.db o row e)
        ]

    deliver-Returns :
        (subs : List (Subscriber V W)) (acc : Responses V) (s : State W)
        → Returns event subs
        → Readable V s.db
        → (r : Responses V) × (s' : State W) × (deliver now event subs acc s ≡ (ok r, s'))
    unfolding deliver round go_on
    deliver-Returns [] acc s h k = (acc, s, refl)
    deliver-Returns (sub ∷ rest) acc s (returns, h) k =
        go (λ acc s k. deliver-Returns rest acc s h k) (k (event.outbox_id, sub.0))
      where
        Next : Type 0
        Next =
            (acc : Responses V) (s : State W)
            → Readable V s.db
            → (r : Responses V) × (s' : State W) × (deliver now event rest acc s ≡ (ok r, s'))

        Goal : Type 0
        Goal =
            (r : Responses V) × (s' : State W) × (deliver now event (sub ∷ rest) acc s ≡ (ok r, s'))

        go :
            Next → (o : Option V) × (completed_delivery (event.outbox_id, sub.0) s.db ≡ ok o) → Goal
        go next (some v, q) =
            let (r, s', e) = next (put sub.0 v acc) s k in (r, s', rw (deliver, q) e)
        go next (none, q) =
            let (v, w', returned) = returns s.world in
            let (s₁, a) = attempt_returns sub s v w' returned in
            let (r, s', e) = next (put sub.0 v acc) s₁ (attempt-Readable sub s s₁ v a k) in
            (r, s', rw (deliver, q) (rw a e))

    -- If the event's row is there, each stored response reads back, there is a subscriber, and every
    -- handler returns, then the dispatch returns, whichever deliveries an earlier dispatch has left.
    pub dispatch_to-Returns :
        (sub : Subscriber V W) (rest : List (Subscriber V W)) (s : State W) (e : OutboxEvent)
        → get event.outbox_id s.db.outbox ≡ some e
        → Readable V s.db
        → Returns event (sub ∷ rest)
        → (r : Responses V) × (s' : State W) × (dispatch_to now (sub ∷ rest) event s ≡ (ok r, s'))
    unfolding dispatch_to publish
    dispatch_to-Returns sub rest s e here readable returns =
        let db₀ = record_event_attempt event.outbox_id s.db in
        let s₀ = record s { db = db₀ } in
        let (e', row, _) = attempted_row event.outbox_id e s here in
        let readable₀ =
          Readable-rows s.db db₀ (deliveries-record_event_attempt event.outbox_id s.db) readable in
        let (r, s₁, loop) = deliver-Returns (sub ∷ rest) [] s₀ returns readable₀ in
        let kept : s₁.db.outbox ≡ db₀.outbox =
          ap (λ (p : Outcome Error (Responses V) × State W). p.1.db.outbox) (sym loop)
          ∙ outbox-deliver now event (sub ∷ rest) [] s₀ in
        let (db', marked, _) =
          mark_published-ok now event.outbox_id (map (λ sub. sub.0) (sub ∷ rest)) e' s₁.db
            (rw kept row) in
        (r, record s₁ { db = db' }, rw (loop, publish) (rw marked))
