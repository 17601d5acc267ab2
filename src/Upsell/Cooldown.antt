-- ===== src/Upsell/Cooldown.antt =====
-- A cooldown that the policy announces has not ended yet.
use neutail.Base.{
  ℕ, ◌+◌, ◌-◌, ◌<◌, String, ◌≡◌, refl, inl, inr, Bool, true, false, not, Option, none, some, List,
  [], ◌∷◌, arith, ltb, if◌then◌else◌, Bool-cases, nat_eq, string_eq, pair_eq, ok,
}
use mathlib.Core.Path.{subst}
use neutail.Base.Table.{get}
use neutail.Base.Lists.{select}
use neutail.Base.Real.{Real}
use neutail.Base.Text.{Unicode}
use neutail.Commerce.{days}
use neutail.Commerce.Segments.{Segment}
use neutail.Upsell.Schema.{
  PolicyConfig, Session, EvaluationRequest, EligibilityResult, CustomerRow, Engagement, OfferType,
  TriggerType,
}
use neutail.Upsell.Windows.{
  earlier, later, latest, earliest, in_window, last_style_plus_decline, frequency_reset_at,
  has_explicit_suppression, is_recent_decline, is_counted, reset_after,
}
use neutail.Upsell.{
  evaluate_eligibility, evaluate_customer, evaluate_trigger, after_limit, after_decline,
  complete_segment, offered, governed, no_offer, is_true, unsubscribed, eligible_offers,
}

-- A moment in the window of `n` microseconds before `now` is followed by `now` within the window.
in_window-future : (now n t : ℕ) → in_window (now - n) now (some t) ≡ true → now < t + n
unfolding in_window
in_window-future now n t h = ground arith

abbrev Holds : (ℕ → Type 0) → Option ℕ → Type 0
Holds P none = Unit
Holds P (some t) = P t

moment-Ahead :
    (now n : ℕ) (o : Option ℕ) → in_window (now - n) now o ≡ true → Holds (λ t. now < t + n) o
moment-Ahead now n none h = tt
moment-Ahead now n (some t) h = in_window-future now n t h

-- If each selected row that has a moment has it in `P`, so is the latest, and the earliest.
module _ (p : Engagement → Bool) (P : ℕ → Type 0) where
  later-Holds : (a b : Option ℕ) → Holds P a → Holds P b → Holds P (later a b)
  later-Holds none b h k = k
  later-Holds (some t) none h k = h
  later-Holds (some t) (some v) h k = elim (Bool-cases (ltb t v)) [
    | inl q ↦ rw q k
    | inr q ↦ rw q h
  ]

  earlier-Holds : (a b : Option ℕ) → Holds P a → Holds P b → Holds P (earlier a b)
  earlier-Holds none b h k = k
  earlier-Holds (some t) none h k = h
  earlier-Holds (some t) (some v) h k = elim (Bool-cases (ltb v t)) [
    | inl q ↦ rw q k
    | inr q ↦ rw q h
  ]

  module _ (each : (e : Engagement) → p e ≡ true → Holds P e.event_datetime) where
    latest-Holds : (es : List Engagement) → Holds P (latest (select p es))
    unfolding latest
    latest-Holds [] = tt
    latest-Holds (e ∷ es) = elim (Bool-cases (p e)) [
      | inl q ↦ rw q (later-Holds _ _ (each e q) (latest-Holds es))
      | inr q ↦ rw q (latest-Holds es)
    ]

    earliest-Holds : (es : List Engagement) → Holds P (earliest (select p es))
    unfolding earliest
    earliest-Holds [] = tt
    earliest-Holds (e ∷ es) = elim (Bool-cases (p e)) [
      | inl q ↦ rw q (earlier-Holds _ _ (each e q) (earliest-Holds es))
      | inr q ↦ rw q (earliest-Holds es)
    ]

module _ {F : Type 0} (config : PolicyConfig F) (customer_id : String) (now : ℕ) where
  decline-Ahead :
      (es : List Engagement)
      → Holds
          (λ t. now < t + days config.style_plus_decline_cooldown_days)
          (last_style_plus_decline config customer_id now es)
  unfolding last_style_plus_decline
  decline-Ahead es =
      latest-Holds (is_recent_decline config customer_id now)
        (λ t. now < t + days config.style_plus_decline_cooldown_days) each es
    where
      each :
          (e : Engagement)
          → is_recent_decline config customer_id now e ≡ true
          → Holds (λ t. now < t + days config.style_plus_decline_cooldown_days) e.event_datetime
      each e q =
          moment-Ahead now (days config.style_plus_decline_cooldown_days) _ (ground (arith, q))

  reset-Ahead :
      (b : Bool) (o : Option ℕ)
      → Holds (λ t. now < t + days config.service_offer_window_days) o
      → Holds (λ t. now < t) (reset_after config customer_id now b o)
  reset-Ahead true (some t) h = h
  reset-Ahead true none h = tt
  reset-Ahead false (some t) h = tt
  reset-Ahead false none h = tt

  frequency-Ahead :
      (es : List Engagement) → Holds (λ t. now < t) (frequency_reset_at config customer_id now es)
  unfolding frequency_reset_at
  frequency-Ahead es = reset-Ahead _ _ (
      earliest-Holds (is_counted config customer_id now)
        (λ t. now < t + days config.service_offer_window_days) each es)
    where
      each :
          (e : Engagement)
          → is_counted config customer_id now e ≡ true
          → Holds (λ t. now < t + days config.service_offer_window_days) e.event_datetime
      each e q = moment-Ahead now (days config.service_offer_window_days) _ (ground (arith, q))

module _ ⦃u : Unicode⦄ {F : Type 0} ⦃r : Real F⦄ (config : PolicyConfig F) (session : Session F)
    (now : ℕ) (request : EvaluationRequest F) where
  abbrev Ahead : EligibilityResult → Type 0
  Ahead result = Holds (λ t. now < t) result.cooldown_until

  governed-Ahead :
      (t : TriggerType) (segment : Segment) (m : Bool) (o : Option String)
      → Ahead (governed t segment m o)
  unfolding governed offered
  governed-Ahead t segment m (some reason) = tt
  governed-Ahead t segment m none = go (unsubscribed m (eligible_offers t segment))
    where
      go : (offers : List OfferType) → Ahead (offered t segment m offers)
      go [] = tt
      go (o ∷ offers) = tt

  trigger-Ahead :
      (segment : Segment) (o : Option TriggerType)
      → Ahead (evaluate_trigger config session request segment o)
  unfolding evaluate_trigger
  trigger-Ahead segment none = tt
  trigger-Ahead segment (some t) = governed-Ahead t segment _ _

  limit-Ahead :
      (segment : Segment) (o : Option ℕ)
      → Holds (λ t. now < t) o
      → Ahead (after_limit config session request segment o)
  unfolding after_limit
  limit-Ahead segment none h = trigger-Ahead segment _
  limit-Ahead segment (some t) h = h

  after_decline-Ahead :
      (segment : Segment) (o : Option ℕ)
      → Holds (λ t. now < t + days config.style_plus_decline_cooldown_days) o
      → Ahead (after_decline config session now request segment o)
  unfolding after_decline
  after_decline-Ahead segment none h =
      limit-Ahead segment _ (frequency-Ahead config request.customer_id now session.engagements)
  after_decline-Ahead segment (some t) h = h

  customer-Ahead :
      (customer : CustomerRow F) (o : Option Segment)
      → Ahead (evaluate_customer config session now request customer o)
  unfolding evaluate_customer
  customer-Ahead customer none = tt
  customer-Ahead customer (some segment) =
      go (is_true customer.marketing_consent)
        (has_explicit_suppression config request.customer_id now session.engagements)
    where
      go :
          (a b : Bool)
          → Ahead (
              if not a
              then no_offer "CUSTOMER_CONSENT_REQUIRED" none
              else if b
              then no_offer "SERVICE_NOT_AVAILABLE" none
              else after_decline config session now request segment
                  (last_style_plus_decline config request.customer_id now session.engagements))
      go false b = tt
      go true true = tt
      go true false =
          after_decline-Ahead segment _
            (decline-Ahead config request.customer_id now session.engagements)

-- A cooldown that the policy announces, after a declined Style+ offer or at the frequency limit, ends
-- after the present moment.
pub evaluate-cooldown :
    ⦃u : Unicode⦄ {F : Type 0} ⦃r : Real F⦄ (config : PolicyConfig F) (session : Session F)
    (now : ℕ) (request : EvaluationRequest F) (result : EligibilityResult) (until : ℕ)
    → evaluate_eligibility config session now request ≡ ok result
    → result.cooldown_until ≡ some until
    → now < until
unfolding evaluate_eligibility
evaluate-cooldown {F} config session now request result until h c =
    go (get request.customer_id session.customers) refl
  where
    go : (o : Option (CustomerRow F)) → get request.customer_id session.customers ≡ o → now < until
    go none q = cc (rw q at h)
    go (some customer) q =
        let same : evaluate_customer config session now request customer
              (complete_segment request customer)
            ≡ result =
          ground (arith, rw q at h) in
        subst (λ z. Holds (λ t. now < t) z) c
          (subst (λ (z : EligibilityResult). Holds (λ t. now < t) z.cooldown_until) same
            (customer-Ahead config session now request customer _))
