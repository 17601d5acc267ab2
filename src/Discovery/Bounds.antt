-- ===== src/Discovery/Bounds.antt =====
-- Every score of the ranking lies between 0 and 1, as `RankingScore` demands.
use neutail.Base.{
  ℕ, String, ◌≡◌, refl, inl, inr, Bool, true, false, ◌||◌, Option, none, some, List, [], ◌∷◌, ◌++◌,
  arith, if◌then◌else◌, Bool-cases, is_some, nat_eq, string_eq, pair_eq,
}
use neutail.Base.Lists.{All, contains}
use neutail.Base.Real.{
  Real, IsReal, IsScale, IsUnit, ◌≼◌, zero_real, one_real, same_real, clamp_bounds, round-IsUnit,
  zero-IsUnit, one-IsUnit, min-IsUnit, max-nonneg,
}
use neutail.Base.Table.{Table}
use neutail.Base.Text.{Unicode, codes, codes_eq}
use neutail.Discovery.Schema.{Product, CustomerContext, Criteria, RankedProduct}
use neutail.Discovery.Score.{
  score, preference, preference_score, normalized, normalized_set, Bonus, with_bonuses, bonuses_of,
  segment_score, price_score, price_affinity, segment_name,
}
use neutail.Discovery.Sorted.{All-Permᴰ, sorted-Permᴰ}
use neutail.Discovery.{rank, scored}

pub record AreUnits {F : Type 0} ⦃r : Real F⦄ (p : RankedProduct F) : Type 0 where
  pub total : IsUnit p.ranking.total_score
  pub occasion : IsUnit p.ranking.occasion_score
  pub style : IsUnit p.ranking.style_score
  pub color : IsUnit p.ranking.color_score
  pub segment : IsUnit p.ranking.segment_score
  pub price : IsUnit p.ranking.price_score
  pub semantic : IsUnit p.ranking.semantic_score
  pub availability : IsUnit p.ranking.availability_score

module _ {F : Type 0} ⦃r : Real F⦄ ⦃u : Unicode⦄ (laws : IsReal F) (scale : IsScale F) where
  half-IsUnit : IsUnit (r.decimal 5 1)
  half-IsUnit = (scale.decimal_nonneg 5 1, scale.tenths 5 (omega arith))

  preference-IsUnit :
      (p : List ℕ) (exact preferred : List (List ℕ))
      → IsUnit {F = F} (preference p exact preferred).0
  unfolding preference
  preference-IsUnit p [] [] = half-IsUnit
  preference-IsUnit p [] (q ∷ qs) = elim (Bool-cases (contains p (q ∷ qs))) [
    | inl e ↦ rw e (one-IsUnit laws)
    | inr e ↦ rw e (scale.decimal_nonneg 35 2, scale.hundredths 35 (omega arith))
  ]
  preference-IsUnit p (q ∷ qs) ps = elim (Bool-cases (contains p (q ∷ qs))) [
    | inl e ↦ rw e (one-IsUnit laws)
    | inr e ↦ rw e (zero-IsUnit laws)
  ]

  preference_score-IsUnit :
      (p : Option (List ℕ)) (exact preferred : List (List ℕ))
      → IsUnit {F = F} (preference_score p exact preferred).0
  unfolding preference_score
  preference_score-IsUnit p exact preferred =
      preference-IsUnit (normalized p) (normalized_set exact) (normalized_set preferred)

  with_bonuses_nonneg :
      (bs : List Bonus) (x : F) (reasons : List String)
      → zero_real ≼ x
      → zero_real ≼ (with_bonuses bs x reasons).0
  unfolding with_bonuses
  with_bonuses_nonneg [] x reasons h = h
  with_bonuses_nonneg ((true, n, k, codes) ∷ rest) x reasons h =
      with_bonuses_nonneg rest (r.add x (r.decimal n k)) (reasons ++ codes)
        (scale.add_nonneg x (r.decimal n k) h (scale.decimal_nonneg n k))
  with_bonuses_nonneg ((false, n, k, codes) ∷ rest) x reasons h =
      with_bonuses_nonneg rest x reasons h

  segment_score-IsUnit :
      (p : Product F) (context : CustomerContext F) → IsUnit (segment_score p context).0
  unfolding segment_score
  segment_score-IsUnit p context =
      min-IsUnit laws (with_bonuses (bonuses_of (segment_name context) p) (r.decimal 1 1) []).0 (
        with_bonuses_nonneg (bonuses_of (segment_name context) p) (r.decimal 1 1) []
          (scale.decimal_nonneg 1 1))

  price_affinity-IsUnit : (s a f t : F) → IsUnit (price_affinity s a f t)
  unfolding price_affinity
  price_affinity-IsUnit s a f t = elim (Bool-cases (same_real (r.add s a) zero_real)) [
    | inl e ↦ rw e half-IsUnit
    | inr e ↦ rw e (min-IsUnit laws _ (max-nonneg laws _))
  ]

  price_score-IsUnit :
      (p : Product F) (context : CustomerContext F) (criteria : Criteria F)
      → IsUnit (price_score p context criteria)
  unfolding price_score
  price_score-IsUnit p context criteria =
      go p.current_price_gbp refl (is_some criteria.min_price || is_some criteria.max_price) refl
    where
      go :
          (o : Option F)
          → p.current_price_gbp ≡ o
          → (b : Bool) → (is_some criteria.min_price || is_some criteria.max_price) ≡ b
          → IsUnit (price_score p context criteria)
      go none e b e' = rw e (zero-IsUnit laws)
      go (some price) e true e' = rw (e, e') (one-IsUnit laws)
      go (some price) e false e' = rw (e, e') (price_affinity-IsUnit _ _ _ _)

  availability-IsUnit : (b : Bool) → IsUnit {F = F} (if b then one_real else zero_real)
  availability-IsUnit true = one-IsUnit laws
  availability-IsUnit false = zero-IsUnit laws

  score-AreUnits :
      (p : Product F) (context : CustomerContext F) (criteria : Criteria F) (semantic : F)
      (available : Bool)
      → AreUnits (score p context criteria semantic available)
  unfolding score
  score-AreUnits p context criteria semantic available = record {
    total = clamp_bounds laws _ 6;
    occasion = round-IsUnit laws _ 6 (preference_score-IsUnit _ _ _);
    style = round-IsUnit laws _ 6 (preference_score-IsUnit _ _ _);
    color = round-IsUnit laws _ 6 (preference_score-IsUnit _ _ _);
    segment = round-IsUnit laws _ 6 (segment_score-IsUnit p context);
    price = round-IsUnit laws _ 6 (price_score-IsUnit p context criteria);
    semantic = round-IsUnit laws _ 6 (min-IsUnit laws _ (max-nonneg laws semantic));
    availability = availability-IsUnit available;
  }

  scored-AreUnits :
      (context : CustomerContext F) (criteria : Criteria F) (semantic : Table (List ℕ) F)
      (availability : Table (List ℕ) Bool) (ps : List (Product F))
      → All AreUnits (scored context criteria semantic availability ps)
  unfolding scored
  scored-AreUnits context criteria semantic availability [] = tt
  scored-AreUnits context criteria semantic availability (p ∷ ps) = (
    score-AreUnits p context criteria _ _,
    scored-AreUnits context criteria semantic availability ps,
  )

  -- Every score that the ranking gives, the total and its seven parts, lies between 0 and 1.
  pub rank-AreUnits :
      (ps : List (Product F)) (context : CustomerContext F) (criteria : Criteria F)
      (semantic : Table (List ℕ) F) (availability : Table (List ℕ) Bool)
      → All AreUnits (rank ps context criteria semantic availability)
  unfolding rank
  rank-AreUnits ps context criteria semantic availability =
      All-Permᴰ AreUnits (sorted-Permᴰ _)
        (scored-AreUnits context criteria semantic availability ps)
