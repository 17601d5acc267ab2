-- ===== src/Discovery/Schema.antt =====
-- What the ranking reads and returns: agents/discovery/models.py and the DTOs of models/dto.py. Texts
-- are lists of code points, and floats are of a type `F`.
use neutail.Base.{ℕ, String, Bool, Option, List, nat_eq, string_eq, pair_eq}

-- `Product`, as far as it is ranked.
pub record Product (F : Type 0) : Type 0 where
  pub sku : List ℕ
  pub brand_tier : Option (List ℕ)
  pub color : Option (List ℕ)
  pub style : Option (List ℕ)
  pub occasion : Option (List ℕ)
  pub current_price_gbp : Option F
  pub discount_pct : Option ℕ
  pub new_arrival : Option Bool
  pub exclusive_flag : Option Bool
  pub private_label_flag : Option Bool

-- `CustomerContext` with the lists of its `CustomerPreferences`.
pub record CustomerContext (F : Type 0) : Type 0 where
  pub segment : List ℕ
  pub segment_code : Option (List ℕ)
  pub price_sensitivity : Option F
  pub premium_affinity : Option F
  pub preferred_colors : List (List ℕ)
  pub preferred_styles : List (List ℕ)
  pub preferred_occasions : List (List ℕ)

-- `DiscoveryCriteria`, as far as it is ranked by.
pub record Criteria (F : Type 0) : Type 0 where
  pub occasion : Option (List ℕ)
  pub colors : List (List ℕ)
  pub styles : List (List ℕ)
  pub min_price : Option F
  pub max_price : Option F

pub record RankingScore (F : Type 0) : Type 0 where
  pub sku : List ℕ
  pub total_score : F
  pub occasion_score : F
  pub style_score : F
  pub color_score : F
  pub segment_score : F
  pub price_score : F
  pub semantic_score : F
  pub availability_score : F
  pub reason_codes : List String

pub record RankedProduct (F : Type 0) : Type 0 where
  pub product : Product F
  pub ranking : RankingScore F
