-- ===== src/Discovery/Score.antt =====
-- The score of one product: `_score` of agents/discovery/ranking.py and the functions that it calls, with the
-- weights of agents/discovery/constants.py.
use neutail.Base.{
  ℕ, String, Bool, true, false, ◌||◌, Option, none, some, List, [], ◌∷◌, ◌++◌, ltb, if◌then◌else◌,
  is_some, or_default, ◌==◌, nat_eq, string_eq, pair_eq,
}
use neutail.Base.Lists.{contains, unique}
use neutail.Base.Real.{Real, zero_real, one_real, lt, same_real, max, min, clamp}
use neutail.Base.Text.{Unicode, codes, codes_eq, strip, casefold, underscored}
use neutail.Discovery.Schema.{Product, CustomerContext, Criteria, RankedProduct}

abbrev holds : Option Bool → Bool
holds flag = or_default false flag

abbrev editorial_styles : List (List ℕ)
editorial_styles =
    codes "classic" ∷ codes "contemporary" ∷ codes "statement" ∷ codes "tailored" ∷ []

abbrev reason : Bool → String → List String
reason test code = if test then code ∷ [] else []

-- `if test: score += amount; reasons.extend(codes)`: the test, the literal `n / 10 ^ k` and the codes
abbrev pub Bonus : Type 0
Bonus = Bool × ℕ × ℕ × List String

unfoldable pub with_bonuses :
    {F : Type 0} ⦃r : Real F⦄ → List Bonus → F → List String → F × List String
with_bonuses [] score reasons = (score, reasons)
with_bonuses ⦃r⦄ ((test, n, k, codes) ∷ rest) score reasons =
    let kept = with_bonuses rest score reasons in
    let more = with_bonuses rest (r.add score (r.decimal n k)) (reasons ++ codes) in
    if test then more else kept

module _ ⦃u : Unicode⦄ where
  -- `_normalized`; a text that is not there is empty.
  abbrev pub normalized : Option (List ℕ) → List ℕ
  normalized none = []
  normalized (some value) = casefold (strip value)

  -- `_normalized_set`
  abbrev pub normalized_set : List (List ℕ) → List (List ℕ)
  normalized_set [] = []
  normalized_set (v ∷ vs) =
      let rest = normalized_set vs in
      if normalized (some v) == [] then rest else normalized (some v) ∷ rest

  -- `context.segment_code or context.segment`
  abbrev segment_text : {F : Type 0} → CustomerContext F → List ℕ
  segment_text context =
      let code = or_default [] context.segment_code in if code == [] then context.segment else code

  -- `[occasion] if occasion else []`
  abbrev given : Option (List ℕ) → List (List ℕ)
  given none = []
  given (some t) = if t == [] then [] else t ∷ []

  -- The segment, with blanks as underscores.
  abbrev pub segment_name : {F : Type 0} → CustomerContext F → List ℕ
  segment_name context = underscored (normalized (some (segment_text context)))

  module _ {F : Type 0} ⦃r : Real F⦄ where
    -- `_preference_score`, over the normalised values
    unfoldable pub preference : List ℕ → List (List ℕ) → List (List ℕ) → F × Bool
    preference product [] [] = (r.decimal 5 1, false)
    preference product [] (p ∷ ps) =
        if contains product (p ∷ ps) then (one_real, true) else (r.decimal 35 2, false)
    preference product (e ∷ es) preferred =
        if contains product (e ∷ es) then (one_real, true) else (zero_real, false)

    unfoldable pub preference_score : Option (List ℕ) → List (List ℕ) → List (List ℕ) → F × Bool
    unfolding preference
    preference_score product exact preferred =
        preference (normalized product) (normalized_set exact) (normalized_set preferred)

    prestige_champion : Product F → List Bonus
    prestige_champion p =
        (
          normalized p.brand_tier == codes "premium",
          4,
          1,
          "PREMIUM_AFFINITY" ∷ "PRESTIGE_CHAMPION_MATCH" ∷ [],
        )
        ∷ (holds p.exclusive_flag, 2, 1, "EXCLUSIVE_PRODUCT" ∷ [])
        ∷ (holds p.new_arrival, 15, 2, "NEW_ARRIVAL" ∷ [])
        ∷ (or_default 0 p.discount_pct == 0, 15, 2, "FULL_PRICE_MERCHANDISING" ∷ [])
        ∷ []

    value_defender : Product F → List Bonus
    value_defender p =
        (holds p.private_label_flag, 4, 1, "PRIVATE_LABEL_VALUE" ∷ [])
        ∷ (normalized p.brand_tier == codes "value", 3, 1, "VALUE_DEFENDER_MATCH" ∷ [])
        ∷ (ltb 0 (or_default 0 p.discount_pct), 2, 1, "VALUE_DISCOUNT" ∷ [])
        ∷ []

    price_explorer : Product F → List Bonus
    price_explorer p =
        (normalized p.brand_tier == codes "value", 3, 1, "PRICE_EXPLORER_MATCH" ∷ [])
        ∷ (r.le (or_default zero_real p.current_price_gbp) (r.of_nat 75), 3, 1, "ENTRY_PRICE" ∷ [])
        ∷ (holds p.new_arrival, 2, 1, "TREND_LED_NEW_ARRIVAL" ∷ [])
        ∷ (ltb 0 (or_default 0 p.discount_pct), 1, 1, "ACCESSIBLE_DISCOUNT" ∷ [])
        ∷ []

    aspiring_loyalist : Product F → List Bonus
    aspiring_loyalist p =
        (normalized p.brand_tier == codes "premium", 35, 2, "ASPIRING_PREMIUM_DISCOVERY" ∷ [])
        ∷ (holds p.new_arrival, 25, 2, "NEW_ARRIVAL" ∷ [])
        ∷ (holds p.exclusive_flag, 15, 2, "CURATED_EXCLUSIVE" ∷ [])
        ∷ (contains (normalized p.style) editorial_styles, 15, 2, "EDITORIAL_STYLE" ∷ [])
        ∷ []

    -- The bonuses of a segment, in the order of the tests.
    pub bonuses_of : List ℕ → Product F → List Bonus
    unfolding prestige_champion value_defender price_explorer aspiring_loyalist
    bonuses_of segment p =
        if segment == codes "prestige_champion"
        then prestige_champion p
        else if segment == codes "value_defender"
        then value_defender p
        else if segment == codes "price_explorer"
        then price_explorer p
        else if segment == codes "aspiring_loyalist"
        then aspiring_loyalist p
        else []

    -- `_segment_score`
    unfoldable pub segment_score : Product F → CustomerContext F → F × List String
    unfolding bonuses_of with_bonuses
    segment_score p context =
        let (score, reasons) =
          with_bonuses (bonuses_of (segment_name context) p) (r.decimal 1 1) [] in
        (min score one_real, reasons)

    tier_value : List ℕ → F
    tier_value tier =
        if tier == codes "premium"
        then one_real
        else if tier == codes "mid"
        then r.decimal 6 1
        else if tier == codes "value"
        then r.decimal 2 1
        else r.decimal 4 1

    -- The affordability and the tier, weighted by the customer's sensitivity and affinity.
    unfoldable pub price_affinity : F → F → F → F → F
    price_affinity sensitivity affinity affordability tier =
        let denominator = r.add sensitivity affinity in
        if same_real denominator zero_real
        then r.decimal 5 1
        else min
            (max (r.div (r.add (r.mul sensitivity affordability) (r.mul affinity tier)) denominator)
              zero_real)
            one_real

    -- `_price_score`
    unfoldable pub price_score : Product F → CustomerContext F → Criteria F → F
    unfolding price_affinity tier_value
    price_score p context criteria = elim p.current_price_gbp [
      | none ↦ zero_real
      | some price ↦
          if is_some criteria.min_price || is_some criteria.max_price
          then one_real
          else price_affinity (or_default (r.decimal 5 1) context.price_sensitivity)
              (or_default (r.decimal 5 1) context.premium_affinity)
              (r.sub one_real (min (r.div price (r.of_nat 500)) one_real))
              (tier_value (normalized p.brand_tier))
    ]

    -- The weighted sum of `RANKING_WEIGHTS`.
    total : F → F → F → F → F → F → F → F
    total occasion style color segment price semantic availability =
        let s₁ = r.add (r.mul occasion (r.decimal 25 2)) (r.mul style (r.decimal 15 2)) in
        let s₂ = r.add s₁ (r.mul color (r.decimal 10 2)) in
        let s₃ = r.add s₂ (r.mul segment (r.decimal 20 2)) in
        let s₄ = r.add s₃ (r.mul price (r.decimal 10 2)) in
        let s₅ = r.add s₄ (r.mul semantic (r.decimal 15 2)) in
        r.add s₅ (r.mul availability (r.decimal 5 2))

    -- `_score`
    unfoldable pub score : Product F → CustomerContext F → Criteria F → F → Bool → RankedProduct F
    unfolding preference_score segment_score price_score total
    score p context criteria semantic available =
        let (occasion, occasion_match) =
          preference_score p.occasion (given criteria.occasion) context.preferred_occasions in
        let (style, style_match) =
          preference_score p.style criteria.styles context.preferred_styles in
        let (color, color_match) =
          preference_score p.color criteria.colors context.preferred_colors in
        let (segment, segment_reasons) = segment_score p context in
        let price = price_score p context criteria in
        let availability = if available then one_real else zero_real in
        let near = min (max semantic zero_real) one_real in
        let reasons =
          reason occasion_match "OCCASION_MATCH"
          ++ reason style_match "STYLE_MATCH"
          ++ reason color_match "COLOR_PREFERENCE"
          ++ segment_reasons
          ++ reason (lt zero_real near) "SEMANTIC_MATCH"
          ++ reason (r.le (r.decimal 75 2) price) "PRICE_AFFINITY"
          ++ reason available "IN_STOCK" in
        record {
          product = p;
          ranking = record {
            sku = p.sku;
            total_score = clamp (total occasion style color segment price near availability) 6;
            occasion_score = r.round occasion 6;
            style_score = r.round style 6;
            color_score = r.round color 6;
            segment_score = r.round segment 6;
            price_score = r.round price 6;
            semantic_score = r.round near 6;
            availability_score = availability;
            reason_codes = unique reasons;
          };
        }
