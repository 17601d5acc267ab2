-- ===== src/Discovery.antt =====
-- agents/discovery/ranking.py: the personalised ranking of the candidates. The sort is stable, as Python's is.
pub mod Schema
pub mod Score
pub mod Lexical
pub mod Order
pub mod Before
pub mod Sorted
pub mod Bounds
mod Examples
use neutail.Base.{
  ℕ, zero, suc, ◌+◌, ◌-◌, ◌*◌, ◌/◌, ◌%◌, ◌≤◌, ◌<◌, String, ◌≡◌, refl, sym, ap, ◌∙◌, ◌≢◌, ◌↔◌, ◌⊎◌,
  inl, inr, Bool, true, false, not, ◌&&◌, ◌||◌, Option, none, some, List, [], ◌∷◌, ◌++◌, map, arith,
  ltb, leb, nat_beq, if◌then◌else◌, leb→le, le→leb, Bool-cases, Option-cases, is_some, or_default,
  Eq, ◌==◌, nat_eq, string_eq, pair_eq, beq_self, Outcome, ok, raised, ◌>>=◌, ◌>>◌, require,
  or_raise,
}
use neutail.Base.Real.{Real, zero_real, lt, same_real}
use neutail.Base.Table.{Table, get}
use neutail.Base.Text.{Unicode, codes_eq}
use neutail.Discovery.Schema.{Product, CustomerContext, Criteria, RankingScore, RankedProduct}
use neutail.Discovery.Score.{score}

-- `a <= b` on texts
abbrev pub le_text : List ℕ → List ℕ → Bool
le_text [] b = true
le_text (c ∷ a) [] = false
le_text (c ∷ a) (d ∷ b) = if ltb c d then true else if ltb d c then false else le_text a b

-- `availability or {product.sku: True for product in candidates}`
abbrev available : Table (List ℕ) Bool → List ℕ → Bool
available [] sku = true
available (row ∷ t) sku = or_default false (get sku (row ∷ t))

module _ {F : Type 0} ⦃r : Real F⦄ where
  -- `price if price is not None else inf`
  abbrev pub same_price : Option F → Option F → Bool
  same_price none none = true
  same_price none (some y) = false
  same_price (some x) none = false
  same_price (some x) (some y) = same_real x y

  abbrev pub lower_price : Option F → Option F → Bool
  lower_price none q = false
  lower_price (some x) none = true
  lower_price (some x) (some y) = lt x y

  -- `a <= b` on the sort's keys: the negated score, the price and the SKU, compared in turn
  pub precedes : RankedProduct F → RankedProduct F → Bool
  precedes a b =
      if same_real a.ranking.total_score b.ranking.total_score
      then (if same_price a.product.current_price_gbp b.product.current_price_gbp
          then le_text a.product.sku b.product.sku
          else lower_price a.product.current_price_gbp b.product.current_price_gbp)
      else lt b.ranking.total_score a.ranking.total_score

  -- A stable insertion sort.
  pub insert : RankedProduct F → List (RankedProduct F) → List (RankedProduct F)
  unfolding precedes
  insert x [] = x ∷ []
  insert x (y ∷ ys) = let rest = insert x ys in if precedes x y then x ∷ y ∷ ys else y ∷ rest

  pub sorted : List (RankedProduct F) → List (RankedProduct F)
  unfolding insert
  sorted [] = []
  sorted (x ∷ xs) = insert x (sorted xs)

  module _ ⦃u : Unicode⦄ where
    pub scored :
        CustomerContext F
        → Criteria F
        → Table (List ℕ) F
        → Table (List ℕ) Bool
        → List (Product F)
        → List (RankedProduct F)
    scored context criteria semantic availability [] = []
    scored context criteria semantic availability (p ∷ ps) =
        score p context criteria (or_default zero_real (get p.sku semantic))
          (available availability p.sku)
        ∷ scored context criteria semantic availability ps

    pub rank :
        List (Product F)
        → CustomerContext F
        → Criteria F
        → Table (List ℕ) F
        → Table (List ℕ) Bool
        → List (RankedProduct F)
    unfolding sorted scored
    rank candidates context criteria semantic availability =
        sorted (scored context criteria semantic availability candidates)
