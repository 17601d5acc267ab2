-- ===== src/Fit/Schema.antt =====
-- models/fit.py and agents/fit/constants.py: the evidence of a fit decision, and the decision.
use neutail.Base.{ℕ, String, Option, List, nat_eq, string_eq, pair_eq}

-- `FitReturnReason`
pub data ReturnReason : Type 0 where
  too_small too_large too_short too_long : ReturnReason
  tight_waist tight_chest poor_fit not_as_expected non_fit_reason : ReturnReason

pub data FitOutcome : Type 0 where
  kept returned : FitOutcome

pub data Relevance : Type 0 where
  same_sku same_brand same_category : Relevance

pub data RiskBand : Type 0 where
  low_risk medium_risk high_risk : RiskBand

pub data Action : Type 0 where
  confirm_size recommend_size_change show_caution insufficient_evidence : Action

-- An adjustment by a number of sizes; `up 0` is none.
pub data Steps : Type 0 where
  up down : ℕ → Steps

-- `FitPurchaseEvidence`, `FitReturnEvidence` and `SimilarFitCase`, as far as the calculator reads them
pub record PurchaseEvidence : Type 0 where
  pub purchased_size : String
  pub outcome : FitOutcome

pub record ReturnEvidence : Type 0 where
  pub purchased_size : String
  pub reason : ReturnReason
  pub exchange_size : Option String
  pub relevance : Relevance

pub record SimilarCase (F : Type 0) : Type 0 where
  pub similarity_score : F
  pub purchased_size : String
  pub outcome : FitOutcome
  pub return_reason : Option ReturnReason

-- `FitEvidence`, with the adjustment as `_parse_adjustment` reads it
pub record Evidence (F : Type 0) : Type 0 where
  pub usual_size : Option String
  pub same_sku_purchases : List PurchaseEvidence
  pub same_brand_purchases : List PurchaseEvidence
  pub same_category_purchases : List PurchaseEvidence
  pub size_related_returns : List ReturnEvidence
  pub adjustment : Steps
  pub historical_return_rate : F
  pub similar_fit_cases : List (SimilarCase F)
  pub evidence_strength : F

-- `FitProfile`
pub record Profile (F : Type 0) : Type 0 where
  pub usual_size : Option String
  pub size_confidence : Option F

-- `FitPolicyConfig`
pub record FitPolicyConfig (F : Type 0) : Type 0 where
  pub low_risk_max : F
  pub medium_risk_max : F
  pub chronic_return_rate : F
  pub minimum_evidence_strength : F

-- `FitDecision`
pub record FitDecision (F : Type 0) : Type 0 where
  pub requested_size : Option String
  pub recommended_size : Option String
  pub confidence : F
  pub risk_score : F
  pub risk_band : RiskBand
  pub action : Action
  pub reason_codes : List String
