-- ===== src/Bus/Through.antt =====
-- A loop over the subscribers that ends well: each is delivered, and the loop again runs none of them.
use mathlib.Core.Path.{subst}
use neutail.Base.{
  ℕ, ◌≡◌, refl, ap, Option, none, some, List, [], ◌∷◌, arith, nat_eq, string_eq, pair_eq, Outcome,
  ok, raised,
}
use neutail.Base.Json.{Json, IsJson}
use neutail.Base.Lists.{All}
use neutail.Base.Table.{get, put}
use neutail.Bus.Delivery.{Error, completed_delivery}
use neutail.Bus.{Event, State, Subscriber, Responses, attempt, go_on, round, deliver}
use neutail.Bus.Keeps.{Delivered, Delivered-row, attempt-Delivered, deliver-keeps}

module _ {V : Type 0} ⦃j : Json V⦄ where
  -- The loop over `subs` ends well, with each of them delivered.
  pub record IsThrough {W : Type 0} (event : Event V) (subs : List (Subscriber V W))
      (acc r : Responses V) (s' : State W) : Type 0 where
    pub all_done :
        All (λ (sub : Subscriber V W). (v : V) × Delivered s'.db (event.outbox_id, sub.0) v) subs
    pub again :
        (later : ℕ) (t : State W)
        → t.db.deliveries ≡ s'.db.deliveries
        → deliver later event subs acc t ≡ (ok r, t)

  module _ {W : Type 0} (laws : IsJson V) (now : ℕ) (event : Event V) where
    IsThrough-cons :
        (sub : Subscriber V W) (rest : List (Subscriber V W)) (acc r : Responses V) (s' : State W)
        (v : V)
        → Delivered s'.db (event.outbox_id, sub.0) v
        → IsThrough event rest (put sub.0 v acc) r s'
        → IsThrough event (sub ∷ rest) acc r s'
    unfolding deliver
    IsThrough-cons sub rest acc r s' v h t = record {
      all_done = ((v, h), t.all_done);
      again = λ later u e.
          rw
            (
              Delivered-row (event.outbox_id, sub.0) s'.db u.db v
                  (ap (get (event.outbox_id, sub.0)) e) h,
              round,
            )
            (t.again later u e);
    }

    kept :
        (sub : Subscriber V W) (rest : List (Subscriber V W)) (acc r : Responses V) (s s' : State W)
        (v : V)
        → deliver now event rest acc s ≡ (ok r, s')
        → Delivered s.db (event.outbox_id, sub.0) v
        → Delivered s'.db (event.outbox_id, sub.0) v
    kept sub rest acc r s s' v e h =
        subst
          (λ (p : Outcome Error (Responses V) × State W).
            Delivered p.1.db (event.outbox_id, sub.0) v)
          e (deliver-keeps now event rest acc s (event.outbox_id, sub.0) v h)

    pub deliver-IsThrough :
        (subs : List (Subscriber V W)) (acc r : Responses V) (s s' : State W)
        → deliver now event subs acc s ≡ (ok r, s')
        → IsThrough event subs acc r s'
    unfolding deliver
    deliver-IsThrough [] acc r s s' h = record {
      all_done = tt;
      again = λ later t e. ground (arith, h);
    }
    deliver-IsThrough (sub ∷ rest) acc r s s' h =
        skipped_or_run (λ acc s. deliver-IsThrough rest acc r s s')
          (completed_delivery (event.outbox_id, sub.0) s.db) refl
      where
        Ih : Type 0
        Ih =
            (acc : Responses V) (s : State W)
            → deliver now event rest acc s ≡ (ok r, s')
            → IsThrough event rest acc r s'

        from :
            Ih
            → (s : State W) (v : V) → Delivered s.db (event.outbox_id, sub.0) v
            → deliver now event rest (put sub.0 v acc) s ≡ (ok r, s')
            → IsThrough event (sub ∷ rest) acc r s'
        from ih s v d k =
            IsThrough-cons sub rest acc r s' v (kept sub rest (put sub.0 v acc) r s s' v k d)
              (ih (put sub.0 v acc) s k)

        run :
            Ih
            → (o : Outcome Error V × State W) → attempt now event sub s ≡ o
            → go_on (deliver now event rest) sub.0 acc o ≡ (ok r, s')
            → IsThrough event (sub ∷ rest) acc r s'
        run ih (raised e, s₁) q k = cc
        run ih (ok v, s₁) q k = from ih s₁ v (attempt-Delivered laws now event sub s s₁ v q) k

        skipped_or_run :
            Ih
            → (o : Outcome Error (Option V)) → completed_delivery (event.outbox_id, sub.0) s.db ≡ o
            → IsThrough event (sub ∷ rest) acc r s'
        skipped_or_run ih (raised e) q = cc (rw (q, round) at h)
        skipped_or_run ih (ok (some v)) q = from ih s v q (rw (q, round) at h)
        skipped_or_run ih (ok none) q = run ih (attempt now event sub s) refl (rw (q, round) at h)
