-- ===== src/Commerce/Replay.antt =====
-- A purchase event that was processed is answered from the inbox.
use text.Mathlib.TextEquality.{eq_iff}
use neutail.Base.{
  ℕ, String, ◌≡◌, refl, ◌≢◌, inl, inr, true, some, arith, Option-cases, nat_eq, string_eq, pair_eq,
  Outcome, ok, raised,
}
use neutail.Base.Json.{Json, ReadsBack}
use neutail.Base.Real.{Real}
use neutail.Base.Text.{Unicode}
use neutail.Base.Table.{get, put, get-put_self}
use neutail.Commerce.Schema.{Inbox, InboxStatus, Shop, Purchase, PurchaseResult}
use neutail.Commerce.Orders.{Error, idempotency_conflict}
use neutail.Commerce.Policy.{SegmentationPolicy}
use neutail.Commerce.{
  Surroundings, FreshIds, stored_result, replay, process_new, process_with, process_purchase,
  perform, claimed_inbox,
}

module _ {F : Type 0} ⦃real : Real F⦄ ⦃u : Unicode⦄ ⦃j : Json PurchaseResult⦄ where
  -- The inbox holds the event's result.
  record IsStored (world : Surroundings) (event : Purchase) (r r₀ : PurchaseResult) (text : String)
      (i : Inbox) (db : Shop F) : Type 0 where
    here : get event.event_id db.inbox ≡ some i
    hash : i.payload_hash ≡ world.sha256 (world.canonical event)
    stored : stored_result i ≡ some text
    reads : j.loads text ≡ some r₀
    same : record r₀ { replayed = true } ≡ record r { replayed = true }

  abbrev Stored : Surroundings → Purchase → PurchaseResult → Shop F → Type 0
  Stored world event r db =
      (r₀ : PurchaseResult) × (text : String) × (i : Inbox) × IsStored world event r r₀ text i db

  new-Stored :
      (now : ℕ) (policy : SegmentationPolicy) (world : Surroundings) (ids : FreshIds)
      (trace : String) (event : Purchase) (db db' : Shop F) (r : PurchaseResult)
      → ReadsBack r
      → process_new now policy world ids trace event db ≡ ok (db', r)
      → Stored world event r db'
  unfolding process_new stored_result claimed_inbox
  new-Stored now policy world ids trace event db db' r laws h =
      go (perform now policy world ids trace event db₁) refl
    where
      db₁ : Shop F
      db₁ = record db { inbox = put event.event_id (claimed_inbox now world event) db.inbox }

      go :
          (o : Outcome Error (Shop F × PurchaseResult))
          → perform now policy world ids trace event db₁ ≡ o
          → Stored world event r db'
      go (raised e) q = cc (rw q at h)
      go (ok (db₂, r₂)) q =
          let i = record (claimed_inbox now world event) {
            status = InboxStatus.completed;
            result_json = some (j.dumps r₂);
            updated_at = now;
          } in
          let h' = rw q at h in
          (
            r,
            j.dumps r,
            i,
            ground (
              arith,
              h',
              get-put_self event.event_id i db₂.inbox,
              laws.reads,
              laws.not_empty,
              eq_iff (j.dumps r) "",
            ),
          )

  replay-Stored :
      (world : Surroundings) (event : Purchase) (i : Inbox) (db db' : Shop F) (r : PurchaseResult)
      → get event.event_id db.inbox ≡ some i
      → replay world event i db ≡ ok (db', r)
      → Stored world event r db'
  unfolding replay
  replay-Stored world event i db db' r here h = elim (Option-cases (stored_result i)) [
    | inl none_stored ↦ ground (arith, h, none_stored)
    | inr (text, stored) ↦ elim (Option-cases (j.loads text)) [
      | inl unread ↦ ground (arith, h, stored, unread)
      | inr (r₀, reads) ↦ (
        r₀,
        text,
        i,
        ground (
          arith,
          h,
          here,
          stored,
          reads,
          eq_iff i.payload_hash (world.sha256 (world.canonical event)),
        ),
      )
    ]
  ]

  Stored-process :
      (later : ℕ) (policy : SegmentationPolicy) (world : Surroundings) (ids : FreshIds)
      (trace : String) (event : Purchase) (db : Shop F) (r : PurchaseResult)
      → Stored world event r db
      → process_purchase later policy world ids trace event db
        ≡ ok (db, record r { replayed = true })
  unfolding process_purchase process_with replay
  Stored-process later policy world ids trace event db r (r₀, text, i, s) = rw s.here (
      ground (
        arith,
        s.hash,
        s.stored,
        s.reads,
        s.same,
        eq_iff i.payload_hash (world.sha256 (world.canonical event)),
      ))

  process-Stored :
      (now : ℕ) (policy : SegmentationPolicy) (world : Surroundings) (ids : FreshIds)
      (trace : String) (event : Purchase) (db db' : Shop F) (r : PurchaseResult)
      → ReadsBack r
      → process_purchase now policy world ids trace event db ≡ ok (db', r)
      → Stored world event r db'
  unfolding process_purchase process_with
  process-Stored now policy world ids trace event db db' r laws h =
      elim (Option-cases (get event.event_id db.inbox)) [
        | inl fresh ↦ new-Stored now policy world ids trace event db db' r laws (rw fresh at h)
        | inr (i, here) ↦ replay-Stored world event i db db' r here (rw here at h)
      ]

  -- A purchase event that was processed is answered with the same result, marked as replayed, when it
  -- comes again, at any time, under any policy and ids, and no row changes.
  pub process_purchase-replays :
      (now later : ℕ) (policy policy' : SegmentationPolicy) (world : Surroundings)
      (ids ids' : FreshIds) (trace trace' : String) (event : Purchase) (db db' : Shop F)
      (r : PurchaseResult)
      → ReadsBack r
      → process_purchase now policy world ids trace event db ≡ ok (db', r)
      → process_purchase later policy' world ids' trace' event db'
        ≡ ok (db', record r { replayed = true })
  process_purchase-replays now later policy policy' world ids ids' trace trace' event db db' r laws
        h =
      Stored-process later policy' world ids' trace' event db' r
        (process-Stored now policy world ids trace event db db' r laws h)

  -- An event id that was processed cannot be used for an event with another digest.
  pub process_purchase-reuse :
      (now later : ℕ) (policy : SegmentationPolicy) (world : Surroundings) (ids ids' : FreshIds)
      (trace trace' : String) (event other : Purchase) (db db' : Shop F) (r : PurchaseResult)
      → ReadsBack r
      → process_purchase now policy world ids trace event db ≡ ok (db', r)
      → other.event_id ≡ event.event_id
      → world.sha256 (world.canonical event) ≢ world.sha256 (world.canonical other)
      → process_purchase later policy world ids' trace' other db' ≡ raised idempotency_conflict
  unfolding process_purchase process_with replay
  process_purchase-reuse now later policy world ids ids' trace trace' event other db db' r laws h
        same ne =
      let (r₀, text, i, s) = process-Stored now policy world ids trace event db db' r laws h in
      rw (same, s.here)
        (ground (arith, s.hash, ne, eq_iff i.payload_hash (world.sha256 (world.canonical other))))
