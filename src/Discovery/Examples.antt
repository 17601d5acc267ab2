-- ===== src/Discovery/Examples.antt =====
-- Tests of the ranking, and the theorems at three candidates, in millionths.
use neutail.Base.{
  ℕ, ◌*◌, ◌≡◌, refl, sym, ◌∙◌, ◌≢◌, true, false, none, some, List, [], ◌∷◌, ◌==◌, nat_eq, string_eq,
  pair_eq,
}
use mathlib.Core.Bool.{false≢true}
use mathlib.Core.List.{Permᴰ}
use neutail.Base.Lists.{All}
use neutail.Base.Samples.{ascii, micro_real, micro-IsReal, micro-IsScale}
use neutail.Base.Text.{codes, codes_eq, strip, casefold}
use neutail.Discovery.Schema.{Product, CustomerContext, Criteria}
use neutail.Discovery.Score.{preference, preference_score}
use neutail.Discovery.Bounds.{AreUnits, rank-AreUnits}
use neutail.Discovery.Sorted.{IsDistinct, rank-IsSorted, rank-Permᴰ}
use neutail.Discovery.Before.{IsSorted}
use neutail.Discovery.{rank, scored}

abbrev dress : List ℕ → ℕ → Product ℕ
dress sku price = record {
  sku = sku;
  brand_tier = some (codes "Premium");
  color = some (codes "Navy");
  style = some (codes "Classic");
  occasion = some (codes "Party");
  current_price_gbp = some (price * 1_000_000);
  discount_pct = none;
  new_arrival = some true;
  exclusive_flag = none;
  private_label_flag = none;
}

abbrev gown : Product ℕ
gown = record (dress (codes "A") 90) { color = some (codes "red") }

abbrev candidates : List (Product ℕ)
candidates = dress (codes "C") 90 ∷ gown ∷ dress (codes "B") 90 ∷ []

abbrev reversed : List (Product ℕ)
reversed = gown ∷ dress (codes "C") 90 ∷ dress (codes "B") 90 ∷ []

abbrev customer : CustomerContext ℕ
customer = record {
  segment = codes "Prestige Champion";
  segment_code = none;
  price_sensitivity = none;
  premium_affinity = some 800_000;
  preferred_colors = codes "navy" ∷ [];
  preferred_styles = [];
  preferred_occasions = [];
}

abbrev party : Criteria ℕ
party = record {
  occasion = some (codes "party");
  colors = [];
  styles = [];
  min_price = none;
  max_price = some 100_000_000;
}

matches :
    preference_score {F = ℕ} (some (codes " Party")) (codes "party" ∷ []) [] ≡ (1_000_000, true)
unfolding preference_score preference strip casefold
matches = refl

differ : (a b : List ℕ) → (a == b) ≡ false → a ≢ b
differ a b h e = false≢true (sym h ∙ (codes_eq.beq_iff a b).1 e)

candidates_apart : IsDistinct candidates
candidates_apart = (
  (differ (codes "C") (codes "A") refl, (differ (codes "C") (codes "B") refl, tt)),
  ((differ (codes "A") (codes "B") refl, tt), (tt, tt)),
)

swaps : Permᴰ reversed candidates
swaps = Permᴰ.swap refl refl

rank-IsSorted_example :
    IsSorted (rank candidates customer party [] [])
    × Permᴰ (rank candidates customer party [] []) (scored customer party [] [] candidates)
rank-IsSorted_example = rank-IsSorted micro-IsReal customer party [] [] candidates

rank-Permᴰ_example : rank reversed customer party [] [] ≡ rank candidates customer party [] []
rank-Permᴰ_example =
    rank-Permᴰ micro-IsReal customer party [] [] candidates reversed candidates_apart swaps

rank-AreUnits_example : All AreUnits (rank candidates customer party [] [])
rank-AreUnits_example = rank-AreUnits micro-IsReal micro-IsScale candidates customer party [] []
