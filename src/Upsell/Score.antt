-- ===== src/Upsell/Score.antt =====
-- The opportunity score's range, its band, and that a stronger trigger never lowers it.
use neutail.Base.{
  inl, inr, Bool-cases, raised, ◌⊎◌, ◌≡◌, refl, ◌↔◌, Bool, true, false, some, arith, nat_eq,
  string_eq, pair_eq, ok,
}
use mathlib.Core.Path.{subst}
use neutail.Base.Real.{Real, IsReal, zero_real, one_real, clamp, clamp_bounds, clamp_mono, ◌≼◌}
use neutail.Base.Text.{Unicode}
use neutail.Upsell.Schema.{EligibilityResult}
use neutail.Upsell.Selector.{low, high}
use neutail.Upsell.Scorer.{
  not_eligible, ScoringConfig, ScoringInput, OpportunityScore, calculate, weighted_sum, band_of,
  score_result,
}

-- The score lies between 0 and 1, and the band is the one whose minimum it reaches.
pub record IsScore (F : Type 0) ⦃r : Real F⦄ (config : ScoringConfig F) (o : OpportunityScore F)
    : Type 0 where
  pub at_least_zero : zero_real ≼ o.score
  pub at_most_one : o.score ≼ one_real
  pub high_iff : (o.band ≡ high) ↔ (config.high_band_min ≼ o.score)
  pub low_iff :
      config.medium_band_min ≼ config.high_band_min
      → (o.band ≡ low) ↔ (r.le config.medium_band_min o.score ≡ false)

module _ ⦃u : Unicode⦄ {F : Type 0} ⦃r : Real F⦄ (laws : IsReal F) where
  open laws use {le_refl, le_trans, add_mono, mul_mono}

  band-high_iff :
      (config : ScoringConfig F) (x : F) → (band_of config x ≡ high) ↔ (config.high_band_min ≼ x)
  unfolding band_of
  band-high_iff config x = (λ h. ground (arith, h), λ h. ground (arith, h))

  band-low_iff :
      (config : ScoringConfig F) (x : F)
      → config.medium_band_min ≼ config.high_band_min
      → (band_of config x ≡ low) ↔ (r.le config.medium_band_min x ≡ false)
  unfolding band_of
  band-low_iff config x m =
      let t = le_trans config.medium_band_min config.high_band_min x m in
      (λ h. ground (arith, h), λ h. ground (arith, h, t))

  calculate_inv :
      (config : ScoringConfig F) (input : ScoringInput F) (eligibility : EligibilityResult)
      (o : OpportunityScore F)
      → calculate config input eligibility ≡ ok o
      → (eligibility.eligible ≡ true) × (score_result config input eligibility ≡ o)
  unfolding calculate
  calculate_inv config input eligibility o h = go eligibility.eligible refl
    where
      go :
          (b : Bool)
          → eligibility.eligible ≡ b
          → (eligibility.eligible ≡ true) × (score_result config input eligibility ≡ o)
      go false q = cc (rw q at h)
      go true q = (q, ground (arith, rw q at h))

  score_result-IsScore :
      (config : ScoringConfig F) (input : ScoringInput F) (eligibility : EligibilityResult)
      → IsScore F config (score_result config input eligibility)
  unfolding score_result
  score_result-IsScore config input eligibility =
      let s = clamp (weighted_sum config input) 3 in
      let (low_end, high_end) = clamp_bounds laws (weighted_sum config input) 3 in
      record {
        at_least_zero = low_end;
        at_most_one = high_end;
        high_iff = band-high_iff config s;
        low_iff = band-low_iff config s;
      }

  -- A score is computed for an eligible result and refused for another one. It is the weighted sum,
  -- clamped and rounded, lies between 0 and 1, and has the band that the minima give it.
  pub calculate-IsScore :
      (config : ScoringConfig F) (input : ScoringInput F) (eligibility : EligibilityResult)
      → ((o : OpportunityScore F) × (eligibility.eligible ≡ true)
          × (calculate config input eligibility ≡ ok o)
          × (o.score ≡ clamp (weighted_sum config input) 3)
          × IsScore F config o)
        ⊎ ((eligibility.eligible ≡ false)
            × (calculate config input eligibility ≡ raised not_eligible))
  unfolding calculate score_result
  calculate-IsScore config input eligibility = elim (Bool-cases eligibility.eligible) [
    | inl e ↦ inl (
      score_result config input eligibility,
      e,
      rw e refl,
      refl,
      score_result-IsScore config input eligibility,
    )
    | inr e ↦ inr (e, rw e refl)
  ]

  sum_mono :
      (config : ScoringConfig F) (input : ScoringInput F) (s s' : F)
      → zero_real ≼ config.trigger_weight
      → s ≼ s'
      → weighted_sum config (record input { strength = some s })
        ≼ weighted_sum config (record input { strength = some s' })
  unfolding weighted_sum
  sum_mono config input s s' w h =
      let keep : (x y : F) → x ≼ y → (z : F) → r.add x z ≼ r.add y z =
        λ x y p z. add_mono x y z z p (le_refl z) in
      keep _ _ (keep _ _ (keep _ _ (keep _ _ (mul_mono s s' config.trigger_weight w h) _) _) _) _

  -- A stronger trigger, all else equal, scores at least as much, and keeps a high band, if its weight is not negative.
  pub calculate_mono :
      (config : ScoringConfig F) (input : ScoringInput F) (eligibility : EligibilityResult)
      (s s' : F) (o o' : OpportunityScore F)
      → zero_real ≼ config.trigger_weight
      → s ≼ s'
      → calculate config (record input { strength = some s }) eligibility ≡ ok o
      → calculate config (record input { strength = some s' }) eligibility ≡ ok o'
      → (o.score ≼ o'.score) × (o.band ≡ high → o'.band ≡ high)
  unfolding score_result
  calculate_mono config input eligibility s s' o o' w h p p' =
      let weak = record input { strength = some s } in
      let strong = record input { strength = some s' } in
      let (_, q) = calculate_inv config weak eligibility o p in
      let (_, q') = calculate_inv config strong eligibility o' p' in
      let sc = subst (IsScore F config) q (score_result-IsScore config weak eligibility) in
      let sc' = subst (IsScore F config) q' (score_result-IsScore config strong eligibility) in
      let m = clamp_mono laws _ _ 3 (sum_mono config input s s' w h) in
      let up : o.score ≼ o'.score =
        subst (λ (z : OpportunityScore F). o.score ≼ z.score) q'
          (subst (λ (z : OpportunityScore F). z.score ≼ clamp (weighted_sum config strong) 3) q
            m) in
      (
        up,
        λ b. sc'.high_iff.1 (le_trans config.high_band_min o.score o'.score (sc.high_iff.0 b) up),
      )
