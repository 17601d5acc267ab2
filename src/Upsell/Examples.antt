-- ===== src/Upsell/Examples.antt =====
-- Runs of the upsell policy, scorer and selector.
use neutail.Base.Real.{clamp}
use neutail.Base.Table.{get}
use neutail.Base.{
  raised, ◌⊎◌, ℕ, ◌<◌, ◌≡◌, refl, true, false, none, some, List, [], ◌∷◌, leb, nat_eq, string_eq,
  pair_eq, ok,
}
use neutail.Base.Samples.{micro_real, micro-IsReal, ascii}
use neutail.Upsell.Schema.{
  same_offer, PolicyConfig, Session, EvaluationRequest, EligibilityResult, CustomerRow, Engagement,
  high_product_engagement, styling_advisory, style_plus_trial, trigger_type_of,
}
use neutail.Upsell.{
  evaluate_eligibility, evaluate_customer, evaluate_trigger, after_limit, after_decline,
  complete_segment, governed, offered, unsubscribed, known_segment, normalized_segment,
  validate_trigger,
}
use neutail.Upsell.Windows.{
  has_active_style_plus, has_explicit_suppression, last_style_plus_decline, frequency_reset_at,
  latest, earliest, in_window,
}
use neutail.Upsell.Selector.{high, medium, select_offer}
use neutail.Upsell.Scorer.{
  not_eligible, weighted_sum, ScoringConfig, ScoringInput, OpportunityScore, calculate,
  score_result,
}
use neutail.Upsell.Score.{calculate-IsScore, calculate_mono, IsScore}
use neutail.Upsell.Permit.{evaluate-IsPermitted, IsPermitted}
use neutail.Upsell.Choice.{select-allowed}
use neutail.Upsell.Cooldown.{evaluate-cooldown}
use neutail.Base.Text.{blank_out, casefold, split, join}
use neutail.Base.Lists.{any}

abbrev pub config : PolicyConfig ℕ
config = record {
  max_service_offers_30d = 3;
  service_offer_window_days = 30;
  explicit_suppression_days = 30;
  style_plus_decline_cooldown_days = 30;
  high_engagement_threshold = 700_000;
  chronic_fit_risk_threshold = 500_000;
  cart_abandonment_threshold = 700_000;
  loyalty_threshold_tiers = "gold" ∷ "platinum" ∷ [];
}

abbrev customer : CustomerRow ℕ
customer = record {
  segment = some "Prestige Champion";
  premium_affinity = some 800_000;
  price_sensitivity = some 200_000;
  marketing_consent = some true;
}

abbrev declined : Engagement
declined = record {
  customer_id = some "C1";
  event_datetime = some 86_400_000_000_000;
  service_type = some "STYLE_PLUS";
  outcome = some "DECLINED";
  offer_suppressed = none;
}

abbrev pub session : List Engagement → Session ℕ
session engagements = record {
  customers = ("C1", customer) ∷ [];
  loyalty = ("C1", some "Gold") ∷ [];
  engagements = engagements;
}

abbrev pub request : EvaluationRequest ℕ
request = record {
  customer_id = "C1";
  segment = "prestige_champion";
  trigger_type = "HIGH_PRODUCT_ENGAGEMENT";
  trigger_strength = some 800_000;
}

abbrev pub allowed : EligibilityResult
allowed = record {
  eligible = true;
  eligible_offers = styling_advisory ∷ style_plus_trial ∷ [];
  suppression_reasons = [];
  eligibility_reasons =
      "HIGH_PRODUCT_ENGAGEMENT" ∷ "PRESTIGE_CHAMPION" ∷ "STYLE_PLUS_ELIGIBLE" ∷ [];
  cooldown_until = none;
}

abbrev cooling : EligibilityResult
cooling = record {
  eligible = false;
  eligible_offers = [];
  suppression_reasons = "RECENT_STYLE_PLUS_DECLINE" ∷ [];
  eligibility_reasons = [];
  cooldown_until = some 88_992_000_000_000;
}

pub evaluates : evaluate_eligibility config (session []) 86_500_000_000_000 request ≡ ok allowed
unfolding evaluate_eligibility evaluate_customer evaluate_trigger after_limit after_decline
    complete_segment governed offered unsubscribed known_segment normalized_segment validate_trigger
    has_active_style_plus has_explicit_suppression last_style_plus_decline frequency_reset_at latest
    earliest in_window blank_out casefold split join trigger_type_of get
evaluates = refl

cools :
    evaluate_eligibility config (session (declined ∷ [])) 86_500_000_000_000 request ≡ ok cooling
unfolding evaluate_eligibility evaluate_customer evaluate_trigger after_limit after_decline
    complete_segment governed offered unsubscribed known_segment normalized_segment validate_trigger
    has_active_style_plus has_explicit_suppression last_style_plus_decline frequency_reset_at latest
    earliest in_window blank_out casefold split join trigger_type_of get
cools = refl

evaluate-cooldown_example : 86_500_000_000_000 < 88_992_000_000_000
evaluate-cooldown_example =
    evaluate-cooldown config (session (declined ∷ [])) 86_500_000_000_000 request cooling
      88_992_000_000_000 cools refl

evaluate-IsPermitted_example :
    (c : _) × (s : _) × (t : _) × IsPermitted config
      (session [])
      86_500_000_000_000
      request
      c
      s
      t
      (styling_advisory ∷ style_plus_trial ∷ [])
evaluate-IsPermitted_example =
    evaluate-IsPermitted config (session []) 86_500_000_000_000 request allowed evaluates refl

select-allowed_example :
    (o : _) × (select_offer high_product_engagement medium "Prestige Champion"
        (styling_advisory ∷ style_plus_trial ∷ [])
      ≡ ok (some o))
    × (any (same_offer o) (styling_advisory ∷ style_plus_trial ∷ []) ≡ true)
select-allowed_example =
    select-allowed config (session []) 86_500_000_000_000 request allowed high_product_engagement
      medium "Prestige Champion" evaluates refl

abbrev scoring : ScoringConfig ℕ
scoring = record {
  trigger_weight = 300_000;
  premium_affinity_weight = 200_000;
  engagement_weight = 200_000;
  loyalty_weight = 150_000;
  segment_affinity_weight = 150_000;
  medium_band_min = 450_000;
  high_band_min = 750_000;
  loyalty_scores =
      ("bronze", 250_000) ∷ ("silver", 500_000) ∷ ("gold", 750_000) ∷ ("platinum", 1_000_000) ∷ [];
  segment_scores =
      ("prestige champion", 1_000_000)
      ∷ ("aspiring loyalist", 800_000)
      ∷ ("value defender", 350_000)
      ∷ ("price explorer", 200_000)
      ∷ [];
}

abbrev input : ScoringInput ℕ
input = record {
  segment = "Prestige Champion";
  premium_affinity = some 800_000;
  tier = some "Gold";
  engagement_score = 500_000;
  strength = some 700_000;
}

abbrev strong_input : ScoringInput ℕ
strong_input = record input { strength = some 900_000 }

abbrev score : OpportunityScore ℕ
score = score_result scoring input allowed

abbrev strong_score : OpportunityScore ℕ
strong_score = score_result scoring strong_input allowed

scores : calculate scoring input allowed ≡ ok score
unfolding calculate
scores = refl

strong_scores : calculate scoring strong_input allowed ≡ ok strong_score
unfolding calculate
strong_scores = refl

calculate-IsScore_example :
    ((o : OpportunityScore ℕ) × (true ≡ true)
      × (calculate scoring input allowed ≡ ok o)
      × (o.score ≡ clamp (weighted_sum scoring input) 3)
      × IsScore ℕ scoring o)
    ⊎ ((true ≡ false) × (calculate scoring input allowed ≡ raised not_eligible))
calculate-IsScore_example = calculate-IsScore micro-IsReal scoring input allowed

calculate_mono_example :
    (leb score.score strong_score.score ≡ true) × (score.band ≡ high → strong_score.band ≡ high)
calculate_mono_example =
    calculate_mono micro-IsReal scoring input allowed 700_000 900_000 score strong_score refl refl
      scores strong_scores
