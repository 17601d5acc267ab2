-- ===== src/Fit/Advice.antt =====
-- The range of a fit decision's risk and confidence, and what its action says.
use neutail.Base.{
  String, ◌≡◌, refl, ◌≢◌, ◌⊎◌, inl, inr, Bool, true, false, Option, none, some, List, arith,
  if◌then◌else◌, nat_eq, string_eq, pair_eq,
}
use neutail.Base.Real.{Real, IsReal, clamp_bounds, zero_real, one_real, ◌≼◌}
use neutail.Fit.Schema.{
  Evidence, Profile, FitDecision, FitPolicyConfig, RiskBand, low_risk, medium_risk, high_risk,
  Action, confirm_size, recommend_size_change, show_caution, insufficient_evidence,
}
use neutail.Fit.Risk.{risk_score, confidence_of, risk_band_of}
use neutail.Fit.Sizes.{given}
use neutail.Fit.{evaluate, choose_action, is_change, is_unavailable, caution}

-- What an action says of the requested and the recommended size and of the band.
abbrev Says : List String → Option String → Option String → RiskBand → Action → Type 0
Says available requested recommended band confirm_size =
    (s : String) × (recommended ≡ some s)
    × (requested ≡ none ⊎ requested ≡ some s)
    × (band ≢ high_risk)
    × (is_unavailable requested available ≡ false)
Says available requested recommended band recommend_size_change =
    (q : String) × (s : String) × (requested ≡ some q) × (recommended ≡ some s) × (s ≢ q)
Says available requested recommended band show_caution =
    (s : String) × (recommended ≡ some s)
    × (requested ≡ none ⊎ requested ≡ some s)
    × ((band ≡ high_risk) ⊎ (is_unavailable requested available ≡ true))
Says available requested recommended band insufficient_evidence = Unit

same_size :
    (requested : Option String) (s : String)
    → is_change requested s ≡ false
    → requested ≡ none ⊎ requested ≡ some s
same_size none s h = inl refl
same_size (some q) s h = inr (ground (arith, h, string_eq.beq_iff s q))

other_size :
    (requested : Option String) (s : String)
    → is_change requested s ≡ true
    → (q : String) × (requested ≡ some q) × (s ≢ q)
other_size none s h = cc
other_size (some q) s h = (q, refl, ground (arith, h, string_eq.beq_iff s q))

caution-Says :
    (available : List String) (requested : Option String) (s : String) (band : RiskBand)
    → is_change requested s ≡ false
    → is_unavailable requested available ≡ false
    → Says available requested (some s) band (caution band)
caution-Says available requested s low_risk h k = (s, refl, same_size requested s h, λ e. cc, k)
caution-Says available requested s medium_risk h k = (s, refl, same_size requested s h, λ e. cc, k)
caution-Says available requested s high_risk h k = (s, refl, same_size requested s h, inl refl)

choose_action-Says :
    (available : List String) (weak : Bool) (requested recommended : Option String)
    (band : RiskBand)
    → Says available requested recommended band
        (choose_action weak requested (is_unavailable requested available) band recommended)
unfolding choose_action
choose_action-Says available weak requested none band = tt
choose_action-Says available true requested (some s) band = tt
choose_action-Says available false requested (some s) band =
    go (is_change requested s) refl (is_unavailable requested available) refl
  where
    go :
        (b : Bool)
        → is_change requested s ≡ b
        → (c : Bool) → is_unavailable requested available ≡ c
        → Says available requested
            (some s)
            band
            (if b then recommend_size_change else if c then show_caution else caution band)
    go true q c q' = let (x, e, n) = other_size requested s q in (x, s, e, refl, n)
    go false q true q' = (s, refl, same_size requested s q, inr q')
    go false q false q' = caution-Says available requested s band q q'

-- The numbers of a decision lie between 0 and 1, its band follows from its risk, and its action says
-- what the sizes and the band are.
pub record IsAdvice (F : Type 0) ⦃r : Real F⦄ (config : FitPolicyConfig F) (available : List String)
    (d : FitDecision F) : Type 0 where
  pub risk : (zero_real ≼ d.risk_score) × (d.risk_score ≼ one_real)
  pub confidence : (zero_real ≼ d.confidence) × (d.confidence ≼ one_real)
  pub band : d.risk_band ≡ risk_band_of config d.risk_score
  pub action : Says available d.requested_size d.recommended_size d.risk_band d.action

module _ {F : Type 0} ⦃r : Real F⦄ (laws : IsReal F) where
  -- The risk and the confidence of a decision lie between 0 and 1, and the band follows from the risk. A
  -- size is confirmed only if it is recommended, asked for if any is, in stock if asked for, and of no
  -- high risk; a change goes to another size than the requested one; and a caution has a high risk or
  -- an unavailable size as its cause.
  pub evaluate-IsAdvice :
      (config : FitPolicyConfig F) (profile : Profile F) (available : List String)
      (requested : Option String) (evidence : Evidence F)
      → IsAdvice F config available (evaluate config profile available requested evidence)
  unfolding evaluate risk_score confidence_of
  evaluate-IsAdvice config profile available requested evidence = record {
    risk = clamp_bounds laws _ 3;
    confidence = clamp_bounds laws _ 3;
    band = refl;
    action = choose_action-Says available _ (given requested) _ _;
  }
