-- ===== src/Upsell/Scorer.antt =====
-- agents/upsell/opportunity_scorer.py and the weights of agents/upsell/constants.py.
use neutail.Base.{
  ℕ, String, Option, List, [], ◌∷◌, ◌++◌, if◌then◌else◌, or_default, ◌==◌, nat_eq, string_eq,
  pair_eq, Outcome, ok, ◌>>◌, require,
}
use neutail.Base.Lists.{unique, select}
use neutail.Base.Real.{Real, zero_real, clamp}
use neutail.Base.Text.{Unicode, codes, codes_eq, blank_out, casefold, underscored, uppercase}
use neutail.Upsell.Schema.{EligibilityResult}
use neutail.Upsell.Selector.{Band, low, medium, high}

-- `OpportunityScoringConfig`
pub record ScoringConfig (F : Type 0) : Type 0 where
  pub trigger_weight : F
  pub premium_affinity_weight : F
  pub engagement_weight : F
  pub loyalty_weight : F
  pub segment_affinity_weight : F
  pub medium_band_min : F
  pub high_band_min : F
  pub loyalty_scores : List (String × F)
  pub segment_scores : List (String × F)

-- `OpportunityScore`
pub record OpportunityScore (F : Type 0) : Type 0 where
  pub score : F
  pub band : Band
  pub reason_codes : List String

-- What the scorer reads of the customer's context, loyalty, behaviour and trigger.
pub record ScoringInput (F : Type 0) : Type 0 where
  pub segment : String
  pub premium_affinity : Option F
  pub tier : Option String
  pub engagement_score : F
  pub strength : Option F

pub data ScoringError : Type 0 where
  not_eligible : ScoringError

module _ ⦃u : Unicode⦄ where
  -- `segment.upper().replace(" ", "_")`, if it is one of the two texts
  abbrev pub segment_reason : String → List String
  segment_reason segment =
      let reason = underscored (uppercase (codes segment)) in
      select (λ t. codes t == reason) ("PRESTIGE_CHAMPION" ∷ "ASPIRING_LOYALIST" ∷ [])

module _ ⦃u : Unicode⦄ {F : Type 0} ⦃r : Real F⦄ where
  -- `scores.get(name, 0.0)`
  abbrev pub score_of : List ℕ → List (String × F) → F
  score_of name [] = zero_real
  score_of name ((key, value) ∷ scores) =
      let rest = score_of name scores in if codes key == name then value else rest

  -- `premium_affinity or 0.0`
  abbrev pub premium_score : ScoringInput F → F
  premium_score input = or_default zero_real input.premium_affinity

  abbrev pub loyalty_score : ScoringConfig F → ScoringInput F → F
  loyalty_score config input =
      score_of (casefold (codes (or_default "" input.tier))) config.loyalty_scores

  -- The weighted sum, before it is clamped.
  unfoldable pub weighted_sum : ScoringConfig F → ScoringInput F → F
  weighted_sum config input =
      let trigger = r.mul (or_default zero_real input.strength) config.trigger_weight in
      let premium = r.mul (premium_score input) config.premium_affinity_weight in
      let engagement = r.mul input.engagement_score config.engagement_weight in
      let loyalty = r.mul (loyalty_score config input) config.loyalty_weight in
      let segment =
        r.mul (score_of (casefold (blank_out b'_' (codes input.segment))) config.segment_scores)
          config.segment_affinity_weight in
      r.add (r.add (r.add (r.add trigger premium) engagement) loyalty) segment

  unfoldable pub band_of : ScoringConfig F → F → Band
  band_of config score =
      if r.le config.high_band_min score
      then high
      else if r.le config.medium_band_min score
      then medium
      else low

  pub reasons : ScoringConfig F → ScoringInput F → EligibilityResult → List String
  reasons config input eligibility = unique (
      unique eligibility.eligibility_reasons
      ++ (if r.le (r.decimal 70 2) (premium_score input) then "HIGH_PREMIUM_AFFINITY" ∷ [] else [])
      ++ (if r.le (r.decimal 75 2) (loyalty_score config input) then "LOYAL_CUSTOMER" ∷ [] else [])
      ++ segment_reason input.segment)

  unfoldable pub score_result :
      ScoringConfig F → ScoringInput F → EligibilityResult → OpportunityScore F
  unfolding weighted_sum band_of reasons
  score_result config input eligibility =
      let score = clamp (weighted_sum config input) 3 in
      record {
        score = score;
        band = band_of config score;
        reason_codes = reasons config input eligibility;
      }

  unfoldable pub calculate :
      ScoringConfig F
      → ScoringInput F
      → EligibilityResult
      → Outcome ScoringError (OpportunityScore F)
  unfolding score_result
  calculate config input eligibility =
      require eligibility.eligible not_eligible >> ok (score_result config input eligibility)
