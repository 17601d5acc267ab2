-- ===== src/Upsell/Schema.antt =====
-- models/upsell.py and the rows of models/entities.py that services/upsell_policy_service.py reads.
-- Moments are microseconds since the start of year 1; a request is a validated one, whose texts the
-- DTO has stripped.
use neutail.Base.{
  ℕ, String, Bool, true, false, Option, none, some, List, if◌then◌else◌, ◌==◌, nat_eq, string_eq,
  pair_eq,
}
use neutail.Base.Table.{Table}

-- `UpsellTriggerType`
pub data TriggerType : Type 0 where
  high_product_engagement premium_product_interest cart_abandonment chronic_fit_risk : TriggerType
  styling_engagement loyalty_threshold_reached : TriggerType

-- `ServiceOfferType`
pub data OfferType : Type 0 where
  styling_advisory style_plus_trial style_plus : OfferType

abbrev pub trigger_text : TriggerType → String
trigger_text high_product_engagement = "HIGH_PRODUCT_ENGAGEMENT"
trigger_text premium_product_interest = "PREMIUM_PRODUCT_INTEREST"
trigger_text cart_abandonment = "CART_ABANDONMENT"
trigger_text chronic_fit_risk = "CHRONIC_FIT_RISK"
trigger_text styling_engagement = "STYLING_ENGAGEMENT"
trigger_text loyalty_threshold_reached = "LOYALTY_THRESHOLD_REACHED"

abbrev pub offer_text : OfferType → String
offer_text styling_advisory = "STYLING_ADVISORY"
offer_text style_plus_trial = "STYLE_PLUS_TRIAL"
offer_text style_plus = "STYLE_PLUS"

abbrev pub same_offer : OfferType → OfferType → Bool
same_offer styling_advisory styling_advisory = true
same_offer style_plus_trial style_plus_trial = true
same_offer style_plus style_plus = true
same_offer _ _ = false

-- `UpsellTriggerType(text)`
unfoldable pub trigger_type_of : String → Option TriggerType
trigger_type_of s =
    if s == "HIGH_PRODUCT_ENGAGEMENT"
    then some high_product_engagement
    else if s == "PREMIUM_PRODUCT_INTEREST"
    then some premium_product_interest
    else if s == "CART_ABANDONMENT"
    then some cart_abandonment
    else if s == "CHRONIC_FIT_RISK"
    then some chronic_fit_risk
    else if s == "STYLING_ENGAGEMENT"
    then some styling_engagement
    else if s == "LOYALTY_THRESHOLD_REACHED"
    then some loyalty_threshold_reached
    else none

-- `UpsellPolicyConfig`
pub record PolicyConfig (F : Type 0) : Type 0 where
  pub max_service_offers_30d : ℕ
  pub service_offer_window_days : ℕ
  pub explicit_suppression_days : ℕ
  pub style_plus_decline_cooldown_days : ℕ
  pub high_engagement_threshold : F
  pub chronic_fit_risk_threshold : F
  pub cart_abandonment_threshold : F
  pub loyalty_threshold_tiers : List String

-- The columns of `Customer` that the policy reads.
pub record CustomerRow (F : Type 0) : Type 0 where
  pub segment : Option String
  pub premium_affinity : Option F
  pub price_sensitivity : Option F
  pub marketing_consent : Option Bool

-- `ServiceEngagement`
pub record Engagement : Type 0 where
  pub customer_id : Option String
  pub event_datetime : Option ℕ
  pub service_type : Option String
  pub outcome : Option String
  pub offer_suppressed : Option Bool

-- The tables that the policy reads; a loyalty row is its tier.
pub record Session (F : Type 0) : Type 0 where
  pub customers : Table String (CustomerRow F)
  pub loyalty : Table String (Option String)
  pub engagements : List Engagement

-- `UpsellEvaluationRequest`
pub record EvaluationRequest (F : Type 0) : Type 0 where
  pub customer_id : String
  pub segment : String
  pub trigger_type : String
  pub trigger_strength : Option F

-- `UpsellEligibilityResult`, before its validator has compared `eligible` with the offers
pub record EligibilityResult : Type 0 where
  pub eligible : Bool
  pub eligible_offers : List OfferType
  pub suppression_reasons : List String
  pub eligibility_reasons : List String
  pub cooldown_until : Option ℕ

pub data PolicyError : Type 0 where
  customer_not_found : String → PolicyError
