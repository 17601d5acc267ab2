-- ===== src/Fit.antt =====
-- agents/fit/fit_calculator.py: the size that is recommended for a product.
pub mod Schema
pub mod Sizes
pub mod Risk
pub mod Available
pub mod Advice
mod Examples
use neutail.Base.{
  ℕ, zero, suc, ◌+◌, ◌-◌, ◌*◌, ◌/◌, ◌%◌, ◌≤◌, ◌<◌, String, ◌≡◌, refl, sym, ap, ◌∙◌, ◌≢◌, ◌↔◌, ◌⊎◌,
  inl, inr, Bool, true, false, not, ◌&&◌, ◌||◌, Option, none, some, List, [], ◌∷◌, ◌++◌, map, arith,
  ltb, leb, nat_beq, if◌then◌else◌, leb→le, le→leb, Bool-cases, Option-cases, is_some, or_default,
  Eq, ◌==◌, nat_eq, string_eq, pair_eq, beq_self, Outcome, ok, raised, ◌>>=◌, ◌>>◌, require,
  or_raise,
}
use neutail.Base.Lists.{any, contains, unique}
use neutail.Base.Real.{Real, lt}
use neutail.Fit.Schema.{
  Evidence, Profile, FitDecision, FitPolicyConfig, PurchaseEvidence, ReturnEvidence, ReturnReason,
  too_small, too_large, Action, confirm_size, recommend_size_change, show_caution,
  insufficient_evidence, RiskBand, low_risk, medium_risk, high_risk, Steps, up, down,
}
use neutail.Fit.Sizes.{
  given, or_else, is_in, if_in, kept_size, matching_returns, preferred_exchange_size, adjusted_size,
  vector_supported_size,
}
use neutail.Fit.Risk.{risk_score, confidence_of, risk_band_of, is_adjusted, is_mismatch}

abbrev pub when : Bool → String → List String
when true reason = reason ∷ []
when false reason = []

abbrev pub match_reasons : Option String → Option String → List String
match_reasons none usual = []
match_reasons (some r) none = []
match_reasons (some r) (some u) =
    if r == u then "MATCHES_USUAL_SIZE" ∷ [] else "REQUESTED_SIZE_DIFFERS_FROM_USUAL" ∷ []

abbrev pub return_reasons : List ReturnEvidence → List String
return_reasons [] = []
return_reasons (item ∷ rest) = reasons_of item.reason (return_reasons rest)
  where
    reasons_of : ReturnReason → List String → List String
    reasons_of too_small reasons = "PREVIOUS_TOO_SMALL_RETURN" ∷ reasons
    reasons_of too_large reasons = "PREVIOUS_TOO_LARGE_RETURN" ∷ reasons
    reasons_of _ reasons = reasons

abbrev pub is_up : Steps → Bool
is_up (up n) = true
is_up (down n) = false

-- `bool(similar_fit_cases)`
abbrev pub is_some_case : {A : Type 0} → List A → Bool
is_some_case [] = false
is_some_case (x ∷ xs) = true

-- `requested and requested not in available`
abbrev pub is_unavailable : Option String → List String → Bool
is_unavailable none available = false
is_unavailable (some s) available = not (contains s available)

-- The size that the customer's own history gives: the first of its sources that has one.
pub settled_size :
    {F : Type 0}
    → Evidence F
    → Option String
    → Option String
    → List String
    → Bool
    → Option String
    → Option String
settled_size evidence requested usual available kept_requested exchange =
    let adjusted = adjusted_size (or_else (given usual) requested) evidence.adjustment available in
    or_else exchange (
      or_else (if is_adjusted evidence.adjustment then adjusted else none) (
        or_else (if kept_requested then if_in available requested else none)
          (or_else (if_in available usual) (if_in available requested))))

-- `requested and recommended != requested`, for a size that is recommended
abbrev pub is_change : Option String → String → Bool
is_change none size = false
is_change (some r) size = not (size == r)

abbrev pub caution : RiskBand → Action
caution high_risk = show_caution
caution _ = confirm_size

-- `if insufficient: ... elif ... else ...`, where `weak` says that there is no evidence but a size
pub choose_action : Bool → Option String → Bool → RiskBand → Option String → Action
choose_action weak requested unavailable band none = insufficient_evidence
choose_action true requested unavailable band (some size) = insufficient_evidence
choose_action false requested unavailable band (some size) =
    if is_change requested size
    then recommend_size_change
    else if unavailable
    then show_caution
    else caution band

abbrev pub is_insufficient : Action → Bool
is_insufficient insufficient_evidence = true
is_insufficient _ = false

abbrev pub exchange_reasons : List PurchaseEvidence → Option String → List String
exchange_reasons cases none = []
exchange_reasons cases (some size) =
    if kept_size cases (some size)
    then "SUCCESSFUL_EXCHANGE_SIZE" ∷ []
    else "HISTORICAL_EXCHANGE_SIZE" ∷ []

abbrev pub adjustment_reasons : Steps → List String
adjustment_reasons steps =
    if is_adjusted steps
    then (if is_up steps then "KNOWN_BRAND_RUNS_SMALL" ∷ [] else "KNOWN_BRAND_RUNS_LARGE" ∷ [])
    else []

-- `profile.usual_size or evidence.usual_size`
abbrev pub usual_of : {F : Type 0} → Profile F → Evidence F → Option String
usual_of profile evidence = or_else (given profile.usual_size) evidence.usual_size

module _ {F : Type 0} ⦃r : Real F⦄ (config : FitPolicyConfig F) where
  -- `evaluate`, for a requested size that the request's DTO has stripped
  pub evaluate : Profile F → List String → Option String → Evidence F → FitDecision F
  unfolding settled_size choose_action
  evaluate profile available requested_size evidence =
      let requested = given requested_size in
      let usual = usual_of profile evidence in
      let exact_kept = kept_size evidence.same_sku_purchases requested in
      let kept_requested = exact_kept || kept_size evidence.same_brand_purchases requested in
      let returns = matching_returns evidence requested in
      let exchange = preferred_exchange_size returns available in
      let direct_cases =
        evidence.same_sku_purchases ++ evidence.same_brand_purchases
        ++ evidence.same_category_purchases in
      let settled =
        settled_size evidence requested usual available kept_requested (given exchange) in
      let vector = given (vector_supported_size evidence available) in
      let recommended = or_else settled vector in
      let risk = risk_score requested (given usual) returns evidence exact_kept in
      let band = risk_band_of config risk in
      let little = lt evidence.evidence_strength config.minimum_evidence_strength in
      let weak =
        little
        && not (is_some_case evidence.similar_fit_cases)
        && not (is_some profile.usual_size) in
      let action =
        choose_action weak requested (is_unavailable requested available) band recommended in
      record {
        requested_size = requested;
        recommended_size = recommended;
        confidence = confidence_of profile evidence exact_kept (is_some exchange);
        risk_score = risk;
        risk_band = band;
        action = action;
        reason_codes = unique (
            match_reasons requested (given usual)
            ++ when (is_unavailable requested available) "SIZE_NOT_AVAILABLE"
            ++ when kept_requested "PREVIOUS_SIZE_SUCCESS"
            ++ return_reasons returns
            ++ exchange_reasons direct_cases (given exchange)
            ++ adjustment_reasons evidence.adjustment
            ++ when (not (is_some settled) && is_some vector) "SIMILAR_FIT_CASE_SUPPORT"
            ++ when (lt config.chronic_return_rate evidence.historical_return_rate)
                "HIGH_RETURN_HISTORY"
            ++ when (little || is_insufficient action) "LOW_FIT_EVIDENCE");
      }
