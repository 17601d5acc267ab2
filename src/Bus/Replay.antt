-- ===== src/Bus/Replay.antt =====
-- A dispatch that went through: what it has written, and that the next one runs no handler.
use neutail.Base.{
  ℕ, String, ◌≡◌, refl, ap, inl, inr, true, some, List, [], ◌∷◌, map, arith, Bool-cases,
  Option-cases, nat_eq, string_eq, pair_eq, Outcome, ok, raised,
}
use neutail.Base.Json.{Json, IsJson}
use neutail.Base.Lists.{All, all}
use neutail.Base.Table.{get, put, get-put_self}
use neutail.Bus.Schema.{Rows, OutboxEvent, published}
use neutail.Bus.Delivery.{
  Error, completed_delivery, record_event_attempt, mark_published, has_completed,
}
use neutail.Bus.{Event, State, Subscriber, Responses, deliver, dispatch_to, publish}
use neutail.Bus.Keeps.{Delivered, Delivered-row}
use neutail.Bus.Through.{IsThrough, deliver-IsThrough}

Delivered-has_completed :
    {V : Type 0} ⦃j : Json V⦄ (id name : String) (db : Rows) (v : V)
    → Delivered db (id, name) v
    → has_completed id name db ≡ true
unfolding completed_delivery
Delivered-has_completed id name db v h = ground (arith, h)

all-completed :
    {V W : Type 0} ⦃j : Json V⦄ (id : String) (db : Rows) (subs : List (Subscriber V W))
    → All (λ (sub : Subscriber V W). (v : V) × Delivered db (id, sub.0) v) subs
    → all (λ name. has_completed id name db) (map (λ sub. sub.0) subs) ≡ true
all-completed id db [] h = refl
all-completed id db (sub ∷ rest) h =
    ground (arith, Delivered-has_completed id sub.0 db h.0.0 h.0.1, all-completed id db rest h.1)

pub deliveries-record_event_attempt :
    (id : String) (db : Rows) → (record_event_attempt id db).deliveries ≡ db.deliveries
unfolding record_event_attempt
deliveries-record_event_attempt id db = ground arith

record_event_attempt-published :
    (id : String) (e : OutboxEvent) (db : Rows)
    → get id db.outbox ≡ some e
    → e.status ≡ published
    → record_event_attempt id db ≡ db
unfolding record_event_attempt
record_event_attempt-published id e db q p = ground (arith, q, p)

-- With every delivery completed the event is marked as published, and the deliveries stay.
record IsMarked (id : String) (e : OutboxEvent) (db db' : Rows) : Type 0 where
  event : get id db'.outbox ≡ some e
  status : e.status ≡ published
  deliveries : db'.deliveries ≡ db.deliveries

mark_published_inv :
    (now : ℕ) (id : String) (names : List String) (db db' : Rows)
    → all (λ name. has_completed id name db) names ≡ true
    → mark_published now id names db ≡ ok db'
    → (e : OutboxEvent) × IsMarked id e db db'
unfolding mark_published
mark_published_inv now id names db db' full h = elim (Option-cases (get id db.outbox)) [
  | inl q ↦ ground (arith, h, q)
  | inr (e, q) ↦
      let e' = record e { status = published; published_at = some now } in
      (e', ground (arith, h, q, full, get-put_self id e' db.outbox))
]

pub mark_published-ok :
    (now : ℕ) (id : String) (names : List String) (e : OutboxEvent) (db : Rows)
    → get id db.outbox ≡ some e
    → (db' : Rows) × (mark_published now id names db ≡ ok db') × (db'.deliveries ≡ db.deliveries)
unfolding mark_published
mark_published-ok now id names e db q =
    elim (Bool-cases (all (λ name. has_completed id name db) names)) [
      | inl full ↦ (
        record db {
          outbox = put id (record e { status = published; published_at = some now }) db.outbox;
        },
        rw (q, mark_published) (rw full),
        refl,
      )
      | inr part ↦ (db, rw (q, mark_published) (rw part), refl)
    ]

-- A second dispatch's end: the same responses from the same deliveries, with the world untouched.
pub record IsReplay {W : Type 0} (s' s″ : State W) : Type 0 where
  pub deliveries : s″.db.deliveries ≡ s'.db.deliveries
  pub world : s″.world ≡ s'.world

module _ {V : Type 0} ⦃j : Json V⦄ where
  -- A publication that ends well: the responses are those of the loop, and the event is marked.
  record IsPublication {W : Type 0} (now : ℕ) (event : Event V) (subs : List (Subscriber V W))
      (r : Responses V) (o : Outcome Error (Responses V) × State W) (s₁ s' : State W) : Type 0 where
    loop : o ≡ (ok r, s₁)
    marked : mark_published now event.outbox_id (map (λ sub. sub.0) subs) s₁.db ≡ ok s'.db
    world : s'.world ≡ s₁.world

  publish_inv :
      {W : Type 0} (now : ℕ) (event : Event V) (subs : List (Subscriber V W)) (r : Responses V)
      (o : Outcome Error (Responses V) × State W) (s' : State W)
      → publish now event subs o ≡ (ok r, s')
      → (s₁ : State W) × IsPublication now event subs r o s₁ s'
  unfolding publish
  publish_inv now event subs r (raised e, s) s' h = ground (arith, h)
  publish_inv {W} now event subs r (ok r', s) s' h =
      go (mark_published now event.outbox_id (map (λ sub. sub.0) subs) s.db) refl
    where
      go :
          (m : Outcome Error Rows)
          → mark_published now event.outbox_id (map (λ (sub : Subscriber V W). sub.0) subs) s.db ≡ m
          → (s₁ : State W) × IsPublication now event subs r (ok r', s) s₁ s'
      go (raised e) q = ground (arith, h, q)
      go (ok db) q = (s, ground (arith, h, q))

  All-Delivered :
      {W : Type 0} (id : String) (a b : Rows) (subs : List (Subscriber V W))
      → b.deliveries ≡ a.deliveries
      → All (λ (sub : Subscriber V W). (v : V) × Delivered a (id, sub.0) v) subs
      → All (λ (sub : Subscriber V W). (v : V) × Delivered b (id, sub.0) v) subs
  All-Delivered id a b [] e h = tt
  All-Delivered id a b (sub ∷ rest) e h = (
    (h.0.0, Delivered-row (id, sub.0) a b h.0.0 (ap (get (id, sub.0)) e) h.0.1),
    All-Delivered id a b rest e h.1,
  )

  -- What a dispatch that returns has done, and what it went through.
  pub record IsDispatched {W : Type 0} (event : Event V) (subs : List (Subscriber V W))
      (e : OutboxEvent) (s' : State W) : Type 0 where
    pub delivered :
        All (λ (sub : Subscriber V W). (v : V) × Delivered s'.db (event.outbox_id, sub.0) v) subs
    pub event_row : get event.outbox_id s'.db.outbox ≡ some e
    pub status : e.status ≡ published

  module _ {W : Type 0} (laws : IsJson V) (now : ℕ) (event : Event V) where
    record IsDone (subs : List (Subscriber V W)) (r : Responses V) (e : OutboxEvent)
        (s₁ s' : State W) : Type 0 where
      through : IsThrough event subs [] r s₁
      marked : IsMarked event.outbox_id e s₁.db s'.db

    publish-IsDone :
        (subs : List (Subscriber V W)) (r : Responses V) (s s' : State W)
        → publish now event subs (deliver now event subs [] s) ≡ (ok r, s')
        → (e : OutboxEvent) × (s₁ : State W) × IsDone subs r e s₁ s'
    publish-IsDone subs r s s' h =
        let (s₁, p) = publish_inv now event subs r (deliver now event subs [] s) s' h in
        let through = deliver-IsThrough laws now event subs [] r s s₁ p.loop in
        let full = all-completed event.outbox_id s₁.db subs through.all_done in
        let (e, m) =
          mark_published_inv now event.outbox_id (map (λ sub. sub.0) subs) s₁.db s'.db full
            p.marked in
        (e, s₁, record { through = through; marked = m })

    dispatch_to-IsDone :
        (subs : List (Subscriber V W)) (r : Responses V) (s s' : State W)
        → dispatch_to now subs event s ≡ (ok r, s')
        → (e : OutboxEvent) × (s₁ : State W) × IsDone subs r e s₁ s'
    unfolding dispatch_to
    dispatch_to-IsDone [] r s s' h = ground (arith, h)
    dispatch_to-IsDone (sub ∷ rest) r s s' h = publish-IsDone (sub ∷ rest) r _ s' h

    -- A dispatch that returns has a completed delivery with a stored response for every subscriber, and
    -- has marked the event as published.
    pub dispatch_to-published :
        (subs : List (Subscriber V W)) (r : Responses V) (s s' : State W)
        → dispatch_to now subs event s ≡ (ok r, s')
        → (e : OutboxEvent) × IsDispatched event subs e s'
    dispatch_to-published subs r s s' h =
        let (e, s₁, d) = dispatch_to-IsDone subs r s s' h in
        (
          e,
          record {
            delivered =
                All-Delivered event.outbox_id s₁.db s'.db subs d.marked.deliveries
                  d.through.all_done;
            event_row = d.marked.event;
            status = d.marked.status;
          },
        )

    -- Dispatching again an event whose dispatch returned gives the same responses from the stored
    -- deliveries: no handler runs, whatever it would do by then.
    pub dispatch_to-replays :
        (later : ℕ) (sub : Subscriber V W) (rest : List (Subscriber V W)) (r : Responses V)
        (s s' : State W)
        → dispatch_to now (sub ∷ rest) event s ≡ (ok r, s')
        → (s″ : State W) × (dispatch_to later (sub ∷ rest) event s' ≡ (ok r, s″)) × IsReplay s' s″
    unfolding dispatch_to publish
    dispatch_to-replays later sub rest r s s' h =
        let (e, s₁, d) = dispatch_to-IsDone (sub ∷ rest) r s s' h in
        let same =
          record_event_attempt-published event.outbox_id e s'.db d.marked.event d.marked.status in
        let (db', k, kept) =
          mark_published-ok later event.outbox_id (map (λ sub. sub.0) (sub ∷ rest)) e s'.db
            d.marked.event in
        (
          record s' { db = db' },
          rw (same, d.through.again later s' d.marked.deliveries) (rw (k, publish)),
          record { deliveries = kept; world = refl },
        )
