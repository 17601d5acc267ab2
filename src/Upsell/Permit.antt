-- ===== src/Upsell/Permit.antt =====
-- What the policy's result says: an offer is permitted by every rule, and a cooldown lies ahead.
use neutail.Base.{
  ℕ, String, ◌≡◌, refl, Bool, true, false, Option, none, some, List, [], ◌∷◌, arith, nat_eq,
  string_eq, pair_eq, ok,
}
use mathlib.Core.Path.{subst}
use neutail.Base.Table.{get}
use neutail.Base.Real.{Real}
use neutail.Base.Text.{Unicode}
use neutail.Commerce.Segments.{Segment}
use neutail.Upsell.Schema.{
  PolicyConfig, Session, EvaluationRequest, EligibilityResult, CustomerRow, OfferType, TriggerType,
  trigger_type_of,
}
use neutail.Upsell.Windows.{
  has_active_style_plus, has_explicit_suppression, last_style_plus_decline, frequency_reset_at,
}
use neutail.Upsell.{
  evaluate_eligibility, evaluate_customer, evaluate_trigger, after_limit, after_decline,
  complete_segment, validate_trigger, eligible_offers, unsubscribed, offered, governed, tier_of,
}

offered-eligible :
    (trigger_type : TriggerType) (segment : Segment) (member : Bool) (offers : List OfferType)
    → (offered trigger_type segment member offers).eligible ≡ true
    → (offered trigger_type segment member offers).eligible_offers ≡ offers
unfolding offered
offered-eligible t s m [] h = cc
offered-eligible t s m (o ∷ offers) h = refl

governed_inv :
    (t : TriggerType) (segment : Segment) (member : Bool) (o : Option String)
    → (governed t segment member o).eligible ≡ true
    → (o ≡ none)
      × ((governed t segment member o).eligible_offers
          ≡ unsubscribed member (eligible_offers t segment))
unfolding governed
governed_inv t segment member (some reason) e = cc
governed_inv t segment member none e = (refl, offered-eligible t segment member _ e)

module _ ⦃u : Unicode⦄ {F : Type 0} ⦃r : Real F⦄ where
  -- Every rule lets the offers through.
  pub record IsPermitted (config : PolicyConfig F) (session : Session F) (now : ℕ)
      (request : EvaluationRequest F) (customer : CustomerRow F) (segment : Segment)
      (trigger_type : TriggerType) (offers : List OfferType) : Type 0 where
    pub known : get request.customer_id session.customers ≡ some customer
    pub complete : complete_segment request customer ≡ some segment
    pub consent : customer.marketing_consent ≡ some true
    pub not_suppressed :
        has_explicit_suppression config request.customer_id now session.engagements ≡ false
    pub not_declined :
        last_style_plus_decline config request.customer_id now session.engagements ≡ none
    pub below_limit : frequency_reset_at config request.customer_id now session.engagements ≡ none
    pub is_trigger : trigger_type_of request.trigger_type ≡ some trigger_type
    pub strong_enough :
        validate_trigger config trigger_type request.trigger_strength
          (tier_of (get request.customer_id session.loyalty))
        ≡ none
    pub offers_eq :
        offers
        ≡ unsubscribed
            (has_active_style_plus request.customer_id session.engagements)
            (eligible_offers trigger_type segment)

  module _ (config : PolicyConfig F) (session : Session F) (now : ℕ)
      (request : EvaluationRequest F) where
    record IsTriggered (segment : Segment) (trigger_type : TriggerType) (offers : List OfferType)
        : Type 0 where
      is_trigger : trigger_type_of request.trigger_type ≡ some trigger_type
      strong_enough :
          validate_trigger config trigger_type request.trigger_strength
            (tier_of (get request.customer_id session.loyalty))
          ≡ none
      offers_eq :
          offers
          ≡ unsubscribed
              (has_active_style_plus request.customer_id session.engagements)
              (eligible_offers trigger_type segment)

    trigger_inv :
        (segment : Segment) (o : Option TriggerType)
        → trigger_type_of request.trigger_type ≡ o
        → (evaluate_trigger config session request segment o).eligible ≡ true
        → (t : TriggerType) × IsTriggered segment t
            (evaluate_trigger config session request segment o).eligible_offers
    unfolding evaluate_trigger
    trigger_inv segment none q e = cc
    trigger_inv segment (some t) q e =
        let (w, offers) = governed_inv t segment _ _ e in
        (t, record { is_trigger = q; strong_enough = w; offers_eq = offers })

    limit_inv :
        (segment : Segment) (o : Option ℕ)
        → (after_limit config session request segment o).eligible ≡ true
        → (o ≡ none)
          × (t : TriggerType) × IsTriggered segment t
              (after_limit config session request segment o).eligible_offers
    unfolding after_limit
    limit_inv segment (some reset) e = cc
    limit_inv segment none e = let (t, i) = trigger_inv segment _ refl e in (refl, t, i)

    decline_inv :
        (segment : Segment) (o : Option ℕ)
        → (after_decline config session now request segment o).eligible ≡ true
        → (o ≡ none)
          × (frequency_reset_at config request.customer_id now session.engagements ≡ none)
          × (t : TriggerType) × IsTriggered segment t
              (after_decline config session now request segment o).eligible_offers
    unfolding after_decline
    decline_inv segment (some declined) e = cc
    decline_inv segment none e = let (f, t, i) = limit_inv segment _ e in (refl, f, t, i)

    customer_inv :
        (customer : CustomerRow F) (o : Option Segment)
        → get request.customer_id session.customers ≡ some customer
        → complete_segment request customer ≡ o
        → (evaluate_customer config session now request customer o).eligible ≡ true
        → (c : CustomerRow F) × (segment : Segment) × (t : TriggerType) × IsPermitted config session
            now request c segment t
            (evaluate_customer config session now request customer o).eligible_offers
    unfolding evaluate_customer
    customer_inv customer none k q e = cc
    customer_inv customer (some segment) k q e =
        go customer.marketing_consent refl
          (has_explicit_suppression config request.customer_id now session.engagements) refl
      where
        Goal : Type 0
        Goal =
            (c : CustomerRow F) × (s : Segment) × (t : TriggerType) × IsPermitted config session now
              request c s t
              (evaluate_customer config session now request customer (some segment)).eligible_offers

        go :
            (m : Option Bool)
            → customer.marketing_consent ≡ m
            → (b : Bool)
            → has_explicit_suppression config request.customer_id now session.engagements ≡ b
            → Goal
        go none w b w' = cc (rw w at e)
        go (some false) w b w' = cc (rw w at e)
        go (some true) w true w' = cc (rw (w, w') at e)
        go (some true) w false w' =
            let at_end : (after_decline config session now request segment (
                  last_style_plus_decline config request.customer_id now
                    session.engagements)).eligible
                ≡ true =
              rw (w, w') at e in
            let (d, f, t, i) = decline_inv segment _ at_end in
            (
              customer,
              segment,
              t,
              record {
                known = k;
                complete = q;
                consent = w;
                not_suppressed = w';
                not_declined = d;
                below_limit = f;
                is_trigger = i.is_trigger;
                strong_enough = i.strong_enough;
                offers_eq = rw (w, w') i.offers_eq;
              },
            )

  -- If the policy calls a customer eligible, the customer is known, consents, has a complete context
  -- with one of the four segments, and is under no suppression, cooldown or frequency limit; the
  -- trigger is valid and strong enough; and the offers are those of the trigger and the segment,
  -- less Style+ for its members.
  pub evaluate-IsPermitted :
      (config : PolicyConfig F) (session : Session F) (now : ℕ) (request : EvaluationRequest F)
      (result : EligibilityResult)
      → evaluate_eligibility config session now request ≡ ok result
      → result.eligible ≡ true
      → (customer : CustomerRow F) × (segment : Segment) × (trigger_type : TriggerType)
        × IsPermitted config session now request customer segment trigger_type
            result.eligible_offers
  unfolding evaluate_eligibility
  evaluate-IsPermitted config session now request result h e =
      go (get request.customer_id session.customers) refl
    where
      go :
          (c : Option (CustomerRow F))
          → get request.customer_id session.customers ≡ c
          → (customer : CustomerRow F) × (segment : Segment) × (trigger_type : TriggerType)
            × IsPermitted config session now request customer segment trigger_type
                result.eligible_offers
      go none q = cc (rw q at h)
      go (some customer) q =
          let same : evaluate_customer config session now request customer
                (complete_segment request customer)
              ≡ result =
            ground (arith, rw q at h) in
          subst
            (λ (z : EligibilityResult).
              z.eligible ≡ true
              → (c : CustomerRow F) × (s : Segment) × (t : TriggerType) × IsPermitted config session
                  now request c s t z.eligible_offers)
            same (customer_inv config session now request customer _ q refl) e
