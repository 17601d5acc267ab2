-- ===== src/Upsell.antt =====
-- services/upsell_policy_service.py: `evaluate_eligibility`, the ordered policy that decides which
-- service offers a customer may be shown.
pub mod Schema
pub mod Windows
pub mod Selector
pub mod Scorer
pub mod Score
pub mod Permit
pub mod Choice
pub mod Cooldown
pub mod Examples
use neutail.Upsell.Schema.{
  high_product_engagement, premium_product_interest, cart_abandonment, chronic_fit_risk,
  styling_engagement, loyalty_threshold_reached, styling_advisory, style_plus_trial, style_plus,
}
use neutail.Commerce.Segments.{
  Segment, prestige_champion, value_defender, aspiring_loyalist, price_explorer,
}
use neutail.Upsell.Windows.{
  last_style_plus_decline, frequency_reset_at, has_explicit_suppression, has_active_style_plus,
}
use neutail.Commerce.{days}
use neutail.Upsell.Schema.{
  customer_not_found, PolicyError, CustomerRow, style_plus_trial, trigger_type_of, style_plus,
  EvaluationRequest, same_offer, Session, styling_advisory, trigger_text, OfferType, PolicyConfig,
  TriggerType, EligibilityResult,
}
use neutail.Commerce.Segments.{
  price_explorer, aspiring_loyalist, value_defender, prestige_champion, Segment,
}
use neutail.Base.{
  ℕ, zero, suc, ◌+◌, ◌-◌, ◌*◌, ◌/◌, ◌%◌, ◌≤◌, ◌<◌, String, ◌≡◌, refl, sym, ap, ◌∙◌, ◌≢◌, ◌↔◌, ◌⊎◌,
  inl, inr, Bool, true, false, not, ◌&&◌, ◌||◌, Option, none, some, List, [], ◌∷◌, ◌++◌, map, arith,
  ltb, leb, nat_beq, if◌then◌else◌, leb→le, le→leb, Bool-cases, Option-cases, is_some, or_default,
  Eq, ◌==◌, nat_eq, string_eq, pair_eq, beq_self, Outcome, ok, raised, ◌>>=◌, ◌>>◌, require,
  or_raise,
}
use neutail.Base.Table.{get}
use neutail.Base.Lists.{any, select, contains}
use neutail.Base.Real.{Real, lt}
use neutail.Base.Text.{Unicode, codes, codes_eq, blank_out, casefold, split, join}

abbrev pub no_offer : String → Option ℕ → EligibilityResult
no_offer reason cooldown_until = record {
  eligible = false;
  eligible_offers = [];
  suppression_reasons = reason ∷ [];
  eligibility_reasons = [];
  cooldown_until = cooldown_until;
}

-- `segment in supported_segments`, for a normalised text: the rest of the policy runs on these four.
pub known_segment : List ℕ → Option Segment
known_segment s =
    if s == codes "prestige champion"
    then some prestige_champion
    else if s == codes "value defender"
    then some value_defender
    else if s == codes "aspiring loyalist"
    then some aspiring_loyalist
    else if s == codes "price explorer"
    then some price_explorer
    else none

abbrev pub is_value_segment : Segment → Bool
is_value_segment value_defender = true
is_value_segment price_explorer = true
is_value_segment _ = false

-- `_eligible_offers`
abbrev pub eligible_offers : TriggerType → Segment → List OfferType
eligible_offers chronic_fit_risk _ = styling_advisory ∷ []
eligible_offers cart_abandonment _ = styling_advisory ∷ []
eligible_offers _ value_defender = styling_advisory ∷ []
eligible_offers _ price_explorer = styling_advisory ∷ []
eligible_offers styling_engagement _ = styling_advisory ∷ style_plus ∷ []
eligible_offers _ _ = styling_advisory ∷ style_plus_trial ∷ []

-- The offers a customer may still get, as a Style+ member or not.
pub unsubscribed : Bool → List OfferType → List OfferType
unsubscribed true offers =
    select (λ o. not (same_offer o style_plus_trial || same_offer o style_plus)) offers
unsubscribed false offers = offers

abbrev pub segment_reasons : Segment → List String
segment_reasons prestige_champion = "PRESTIGE_CHAMPION" ∷ []
segment_reasons aspiring_loyalist = "ASPIRING_LOYALIST" ∷ []
segment_reasons _ = []

abbrev pub trial_reasons : List OfferType → List String
trial_reasons offers =
    if any (same_offer style_plus_trial) offers then "STYLE_PLUS_ELIGIBLE" ∷ [] else []

-- The result for the offers that are left.
pub offered : TriggerType → Segment → Bool → List OfferType → EligibilityResult
offered trigger_type segment subscribed [] = record {
  eligible = false;
  eligible_offers = [];
  suppression_reasons =
      (if subscribed then "ALREADY_STYLE_PLUS_MEMBER" ∷ [] else []) ++ "SERVICE_NOT_AVAILABLE" ∷ [];
  eligibility_reasons = [];
  cooldown_until = none;
}
offered trigger_type segment subscribed (o ∷ offers) = record {
  eligible = true;
  eligible_offers = o ∷ offers;
  suppression_reasons = if subscribed then "ALREADY_STYLE_PLUS_MEMBER" ∷ [] else [];
  eligibility_reasons =
      trigger_text trigger_type ∷ segment_reasons segment ++ trial_reasons (o ∷ offers);
  cooldown_until = none;
}

-- What follows the check of the trigger, which may give a reason against an offer.
pub governed : TriggerType → Segment → Bool → Option String → EligibilityResult
governed trigger_type segment member (some reason) = no_offer reason none
governed trigger_type segment member none =
    offered trigger_type segment member (unsubscribed member (eligible_offers trigger_type segment))

-- `bool(column)`
abbrev pub is_true : Option Bool → Bool
is_true none = false
is_true (some b) = b

-- `loyalty.tier if loyalty else None`
abbrev pub tier_of : Option (Option String) → Option String
tier_of none = none
tier_of (some tier) = tier

module _ ⦃u : Unicode⦄ where
  -- `_normalized_segment`, on `value or ""`
  pub normalized_segment : Option String → List ℕ
  normalized_segment none = join (split [])
  normalized_segment (some value) = join (split (casefold (blank_out b'_' (codes value))))

  -- The context is complete if the segment is known and stored, and the columns are there.
  pub complete_segment : {F : Type 0} → EvaluationRequest F → CustomerRow F → Option Segment
  complete_segment request customer =
      let segment = normalized_segment (some request.segment) in
      if (segment == normalized_segment customer.segment)
        && is_some customer.premium_affinity
        && is_some customer.price_sensitivity
        && is_some customer.marketing_consent
      then known_segment segment
      else none

  module _ {F : Type 0} ⦃r : Real F⦄ (config : PolicyConfig F) where
    abbrev pub threshold : TriggerType → Option F
    threshold high_product_engagement = some config.high_engagement_threshold
    threshold premium_product_interest = some config.high_engagement_threshold
    threshold cart_abandonment = some config.cart_abandonment_threshold
    threshold chronic_fit_risk = some config.chronic_fit_risk_threshold
    threshold styling_engagement = some config.high_engagement_threshold
    threshold loyalty_threshold_reached = none

    -- `threshold is not None and (strength is None or strength < threshold)`
    abbrev pub is_too_weak : Option F → Option F → Bool
    is_too_weak none strength = false
    is_too_weak (some t) none = true
    is_too_weak (some t) (some s) = lt s t

    -- `(loyalty_tier or "").casefold() in loyalty_threshold_tiers`
    abbrev pub is_loyal_tier : Option String → Bool
    is_loyal_tier tier =
        any (λ t. codes t == casefold (codes (or_default "" tier))) config.loyalty_threshold_tiers

    pub validate_trigger : TriggerType → Option F → Option String → Option String
    validate_trigger loyalty_threshold_reached strength tier =
        if is_loyal_tier tier then none else some "SERVICE_NOT_AVAILABLE"
    validate_trigger trigger_type strength tier =
        if is_too_weak (threshold trigger_type) strength
        then some "INSUFFICIENT_ENGAGEMENT"
        else none

    -- From the customer's own trigger on.
    pub evaluate_trigger :
        Session F → EvaluationRequest F → Segment → Option TriggerType → EligibilityResult
    evaluate_trigger session request segment none = no_offer "INVALID_TRIGGER" none
    evaluate_trigger session request segment (some trigger_type) =
        governed trigger_type segment
          (has_active_style_plus request.customer_id session.engagements)
          (validate_trigger trigger_type request.trigger_strength
            (tier_of (get request.customer_id session.loyalty)))

    pub after_limit : Session F → EvaluationRequest F → Segment → Option ℕ → EligibilityResult
    unfolding evaluate_trigger
    after_limit session request segment (some reset) =
        no_offer "SERVICE_FREQUENCY_LIMIT" (some reset)
    after_limit session request segment none =
        evaluate_trigger session request segment (trigger_type_of request.trigger_type)

    pub after_decline : Session F → ℕ → EvaluationRequest F → Segment → Option ℕ → EligibilityResult
    unfolding after_limit
    after_decline session now request segment (some declined_at) =
        no_offer "RECENT_STYLE_PLUS_DECLINE"
          (some (declined_at + days config.style_plus_decline_cooldown_days))
    after_decline session now request segment none =
        after_limit session request segment
          (frequency_reset_at config request.customer_id now session.engagements)

    pub evaluate_customer :
        Session F → ℕ → EvaluationRequest F → CustomerRow F → Option Segment → EligibilityResult
    unfolding after_decline
    evaluate_customer session now request customer none =
        no_offer "CUSTOMER_CONTEXT_INCOMPLETE" none
    evaluate_customer session now request customer (some segment) =
        if not (is_true customer.marketing_consent)
        then no_offer "CUSTOMER_CONSENT_REQUIRED" none
        else if has_explicit_suppression config request.customer_id now session.engagements
        then no_offer "SERVICE_NOT_AVAILABLE" none
        else after_decline session now request segment
            (last_style_plus_decline config request.customer_id now session.engagements)

    pub evaluate_eligibility :
        Session F → ℕ → EvaluationRequest F → Outcome PolicyError EligibilityResult
    unfolding complete_segment evaluate_customer
    evaluate_eligibility session now request = do
      customer ←
          or_raise (get request.customer_id session.customers)
            (customer_not_found request.customer_id)
      ok (evaluate_customer session now request customer (complete_segment request customer))
