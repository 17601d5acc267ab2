-- ===== src/Agent/Schema.antt =====
-- The upsell agent's request, result and tools (agents/upsell/agent.py, models/upsell.py).
use neutail.Base.Lists.{length}
use neutail.Base.{
  ltb, leb, ◌&&◌, Outcome, ok, ◌>>◌, require, ℕ, String, Bool, false, not, Option, none, some, List,
  [], ◌∷◌, nat_eq, string_eq, pair_eq,
}
use neutail.Base.Real.{Real, zero_real}
use neutail.Base.Text.{codes, codes_eq}
use neutail.Upsell.Schema.{
  TriggerType, OfferType, EvaluationRequest, EligibilityResult, trigger_text,
}
use neutail.Upsell.Scorer.{ScoringInput, ScoringError}
use neutail.Upsell.Selector.{Band, SelectorError}

-- `UpsellRequest`, as far as it is read. The trace is read by the gateway's call only.
pub record UpsellRequest (F : Type 0) : Type 0 where
  pub customer_id : String
  pub session_id : String
  pub segment : String
  pub premium_affinity : Option F
  pub trigger_type : TriggerType
  pub strength : Option F
  pub selected_sku : Option String

-- `UpsellEventInput` of an offer that is shown
pub record OfferEvent : Type 0 where
  pub customer_id : String
  pub session_id : String
  pub offer_type : OfferType
  pub event_type : String
  pub trigger_type : String

-- The agent's tools and the gateway, over the rest of the world `W`. A loyalty profile is its tier, a behaviour
-- summary its engagement score, and a product of type `P`.
pub record Tools (W F P : Type 0) : Type 0 where
  pub discover_tools : W → W × Option (List String)
  pub get_loyalty_profile : String → W → W × Option (Option String)
  pub get_engagement_summary : String → W → W × Option F
  pub evaluate_upsell : EvaluationRequest F → W → W × Option EligibilityResult
  pub get_product_details : String → W → W × Option P
  pub record_upsell_event : OfferEvent → W → W × Option (Unit {0})
  pub invoke : OfferType → List String → Option P → W → W × Option (Option (List ℕ))

pub data Status : Type 0 where
  offer_available no_offer failed : Status

-- `UpsellResult`, less the ids and the trigger, which it repeats
pub record UpsellResult (F : Type 0) : Type 0 where
  pub status : Status
  pub should_offer : Bool
  pub offer : Option OfferType
  pub opportunity_score : Option F
  pub opportunity_band : Option Band
  pub eligibility_reasons : List String
  pub suppression_reasons : List String
  pub message : Option (List ℕ)
  pub llm_invoked : Bool

-- What the scorer and the selector raise is not caught, nor is the `ValidationError` of the policy's request.
pub data Error : Type 0 where
  scoring : ScoringError → Error
  selecting : SelectorError → Error
  invalid_request : Error

-- The result without an offer.
abbrev pub failure : {F : Type 0} → String → UpsellResult F
failure reason = record {
  status = failed;
  should_offer = false;
  offer = none;
  opportunity_score = none;
  opportunity_band = none;
  eligibility_reasons = [];
  suppression_reasons = reason ∷ [];
  message = none;
  llm_invoked = false;
}

abbrev pub no_offer_result :
    {F : Type 0} → ⦃r : Real F⦄ → List String → List String → UpsellResult F
no_offer_result eligibility suppression = record {
  status = no_offer;
  should_offer = false;
  offer = none;
  opportunity_score = some zero_real;
  opportunity_band = none;
  eligibility_reasons = eligibility;
  suppression_reasons = suppression;
  message = none;
  llm_invoked = false;
}

-- `Field(min_length=1, max_length=128)`
abbrev pub fits : String → Bool
fits t = ltb 0 (length (codes t)) && leb (length (codes t)) 128

abbrev pub request_of : {F : Type 0} → UpsellRequest F → EvaluationRequest F
request_of q = record {
  customer_id = q.customer_id;
  segment = q.segment;
  trigger_type = trigger_text q.trigger_type;
  trigger_strength = q.strength;
}

-- `UpsellEvaluationRequest(...)`. The customer's context is not held to these lengths, the trigger and
-- the SKU are.
unfoldable pub evaluation_request :
    {F : Type 0} → UpsellRequest F → Outcome Error (EvaluationRequest F)
evaluation_request q =
    require (fits q.customer_id && fits q.segment) invalid_request >> ok (request_of q)

abbrev pub scoring_input : {F : Type 0} → UpsellRequest F → Option String → F → ScoringInput F
scoring_input q tier engagement = record {
  segment = q.segment;
  premium_affinity = q.premium_affinity;
  tier = tier;
  engagement_score = engagement;
  strength = q.strength;
}

-- `UpsellEligibilityResult.eligible_result_has_offers`
abbrev pub is_consistent : EligibilityResult → Bool
is_consistent e = elim e.eligible_offers [ [] ↦ not e.eligible | ◌∷◌ o os ↦ e.eligible ]
