-- ===== src/Fit/Risk.antt =====
-- agents/fit/fit_calculator.py: the risk and the confidence of a fit decision.
use neutail.Base.{
  zero, String, Bool, true, false, not, ◌&&◌, Option, none, some, List, [], ◌∷◌, map, ltb,
  if◌then◌else◌, or_default, ◌==◌, nat_eq, string_eq, pair_eq,
}
use neutail.Base.Lists.{select, length}
use neutail.Base.Real.{Real, lt, max, clamp, zero_real, one_real}
use neutail.Fit.Schema.{
  ReturnEvidence, SimilarCase, Evidence, Profile, Relevance, same_sku, same_brand, same_category,
  ReturnReason, non_fit_reason, Steps, up, down, RiskBand, low_risk, medium_risk, high_risk,
  FitPolicyConfig,
}
use neutail.Fit.Sizes.{is_kept}

-- `item.reason in _DIRECTIONAL_REASONS`
abbrev pub is_directional : ReturnReason → Bool
is_directional non_fit_reason = false
is_directional _ = true

abbrev pub is_directional_case : Option ReturnReason → Bool
is_directional_case none = false
is_directional_case (some reason) = is_directional reason

-- `bool(adjustment)`
abbrev pub is_adjusted : Steps → Bool
is_adjusted (up zero) = false
is_adjusted (down zero) = false
is_adjusted _ = true

-- `requested and usual and requested != usual`
abbrev pub is_mismatch : Option String → Option String → Bool
is_mismatch (some r) (some u) = not (r == u)
is_mismatch _ _ = false

module _ {F : Type 0} ⦃r : Real F⦄ where
  abbrev pub weight : Relevance → F
  weight same_sku = one_real
  weight same_brand = r.decimal 75 2
  weight same_category = r.decimal 5 1

  -- `max(weights)`, of a list that is not empty
  abbrev pub largest : F → List F → F
  largest best [] = best
  largest best (w ∷ rest) = largest (max best w) rest

  abbrev pub largest_or_zero : List F → F
  largest_or_zero [] = zero_real
  largest_or_zero (w ∷ rest) = largest w rest

  unfoldable pub return_risk : List ReturnEvidence → F
  return_risk returns = largest_or_zero (
      map (λ (item : ReturnEvidence). weight item.relevance)
        (select (λ (item : ReturnEvidence). is_directional item.reason) returns))

  -- `sum(xs)`
  abbrev pub sum_from : F → List F → F
  sum_from total [] = total
  sum_from total (x ∷ rest) = sum_from (r.add total x) rest

  abbrev pub scores : List (SimilarCase F) → List F
  scores = map (λ (item : SimilarCase F). item.similarity_score)

  abbrev pub concerns : Option String → SimilarCase F → Bool
  concerns none item = true
  concerns (some size) item = item.purchased_size == size

  abbrev pub risk_of_similar : List (SimilarCase F) → F
  risk_of_similar [] = zero_real
  risk_of_similar (item ∷ rest) =
      let items = item ∷ rest in
      r.div
        (sum_from zero_real (
          scores (
            select
              (λ (i : SimilarCase F).
                not (is_kept i.outcome) && is_directional_case i.return_reason)
              items)))
        (max (sum_from zero_real (scores items)) one_real)

  unfoldable pub similar_risk : Option String → List (SimilarCase F) → F
  similar_risk requested items = risk_of_similar (select (concerns requested) items)

  abbrev pub flag : Bool → F
  flag b = if b then one_real else zero_real

  -- The risk, before it is clamped.
  unfoldable pub raw_risk :
      Option String → Option String → List ReturnEvidence → Evidence F → Bool → F
  raw_risk requested usual returns evidence exact_success =
      let history = r.mul evidence.historical_return_rate (r.decimal 25 2) in
      let mismatch = r.mul (flag (is_mismatch requested usual)) (r.decimal 20 2) in
      let brand = r.mul (flag (is_adjusted evidence.adjustment)) (r.decimal 20 2) in
      let returned = r.mul (return_risk returns) (r.decimal 25 2) in
      let similar = r.mul (similar_risk requested evidence.similar_fit_cases) (r.decimal 10 2) in
      let risk = r.add (r.add (r.add (r.add history mismatch) brand) returned) similar in
      if exact_success && lt (return_risk returns) one_real
      then r.sub risk (r.decimal 15 2)
      else risk

  -- `_risk_score`
  unfoldable pub risk_score :
      Option String → Option String → List ReturnEvidence → Evidence F → Bool → F
  risk_score requested usual returns evidence exact_success =
      clamp (raw_risk requested usual returns evidence exact_success) 3

  unfoldable pub raw_confidence : Profile F → Evidence F → Bool → Bool → F
  raw_confidence profile evidence exact_success exchange_supported =
      let sized = r.mul (or_default zero_real profile.size_confidence) (r.decimal 40 2) in
      let strength = r.mul evidence.evidence_strength (r.decimal 40 2) in
      let exact = if exact_success then r.decimal 15 2 else zero_real in
      let exchange = if exchange_supported then r.decimal 15 2 else zero_real in
      let n = length evidence.similar_fit_cases in
      let similar = r.mul (r.of_nat (if ltb 5 n then 5 else n)) (r.decimal 1 2) in
      r.add (r.add (r.add (r.add sized strength) exact) exchange) similar

  -- `_confidence`
  unfoldable pub confidence_of : Profile F → Evidence F → Bool → Bool → F
  confidence_of profile evidence exact_success exchange_supported =
      clamp (raw_confidence profile evidence exact_success exchange_supported) 3

  -- `_risk_band`
  unfoldable pub risk_band_of : FitPolicyConfig F → F → RiskBand
  risk_band_of config score =
      if lt score config.low_risk_max
      then low_risk
      else if lt score config.medium_risk_max
      then medium_risk
      else high_risk
