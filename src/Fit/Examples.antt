-- ===== src/Fit/Examples.antt =====
-- Runs of the fit calculator.
use neutail.Base.{ℕ, String, ◌≡◌, refl, true, some, List, [], ◌∷◌, nat_eq, string_eq, pair_eq}
use neutail.Base.Table.{put}
use neutail.Base.Lists.{contains}
use neutail.Base.Samples.{micro_real, micro-IsReal}
use neutail.Fit.Schema.{
  Evidence, Profile, FitPolicyConfig, ReturnEvidence, up, kept, too_small, same_sku,
}
use neutail.Fit.Sizes.{kept_size, matching_returns, preferred_exchange_size, adjusted_size}
use neutail.Fit.{evaluate, settled_size}
use neutail.Fit.Available.{evaluate_available}
use neutail.Fit.Advice.{evaluate-IsAdvice, IsAdvice}

abbrev standard : FitPolicyConfig ℕ
standard = record {
  low_risk_max = 300_000;
  medium_risk_max = 650_000;
  chronic_return_rate = 500_000;
  minimum_evidence_strength = 200_000;
}

abbrev profile : Profile ℕ
profile = record { usual_size = some "M"; size_confidence = some 800_000 }

abbrev sizes : List String
sizes = "S" ∷ "M" ∷ "L" ∷ []

abbrev tight : ReturnEvidence
tight = record {
  purchased_size = "M";
  reason = too_small;
  exchange_size = some "L";
  relevance = same_sku;
}

abbrev evidence : Evidence ℕ
evidence = record {
  usual_size = some "M";
  same_sku_purchases = [];
  same_brand_purchases = record { purchased_size = "M"; outcome = kept } ∷ [];
  same_category_purchases = [];
  size_related_returns = tight ∷ [];
  adjustment = up 0;
  historical_return_rate = 100_000;
  similar_fit_cases = [];
  evidence_strength = 600_000;
}

exchanges : (evaluate standard profile sizes (some "M") evidence).recommended_size ≡ some "L"
unfolding evaluate settled_size matching_returns preferred_exchange_size adjusted_size kept_size put
exchanges = refl

evaluate_available_example : contains "L" sizes ≡ true
evaluate_available_example =
    evaluate_available standard profile sizes (some "M") evidence "L" exchanges

evaluate-IsAdvice_example :
    IsAdvice ℕ standard sizes (evaluate standard profile sizes (some "M") evidence)
evaluate-IsAdvice_example =
    evaluate-IsAdvice micro-IsReal standard profile sizes (some "M") evidence
