-- ===== src/Discovery/Before.antt =====
-- The order of the ranking in words of its own, beside the sort's comparison (agents/discovery/ranking.py).
use neutail.Base.{
  ℕ, ◌<◌, ◌≡◌, refl, ap, Bool, true, false, Option, none, some, List, [], ◌∷◌, ◌++◌, arith, ltb,
  nat_eq, string_eq, pair_eq,
}
use neutail.Base.Lists.{All}
use neutail.Base.Real.{same_real, Real}
use neutail.Discovery.Schema.{RankedProduct}
use neutail.Discovery.{precedes, le_text, same_price, lower_price}

-- The one text is a prefix of the other, or has the lower code point where they first differ.
pub data IsTextBefore (x y : List ℕ) : Type 0 where
  prefix : (t : List ℕ) → y ≡ x ++ t → IsTextBefore x y
  differs :
      (p x' y' : List ℕ) (c d : ℕ) → x ≡ p ++ c ∷ x' → y ≡ p ++ d ∷ y' → c < d → IsTextBefore x y

cons-IsTextBefore : (c : ℕ) (x y : List ℕ) → IsTextBefore x y → IsTextBefore (c ∷ x) (c ∷ y)
cons-IsTextBefore c x y (prefix t e) = prefix t (ap (λ s. c ∷ s) e)
cons-IsTextBefore c x y (differs p x' y' a b e f lt) =
    differs (c ∷ p) x' y' a b (ap (λ s. c ∷ s) e) (ap (λ s. c ∷ s) f) lt

le_text-IsTextBefore : (x y : List ℕ) → le_text x y ≡ true → IsTextBefore x y
le_text-IsTextBefore [] y h = prefix y refl
le_text-IsTextBefore (c ∷ x) [] h = cc
le_text-IsTextBefore (c ∷ x) (d ∷ y) h =
    go (ltb c d) (ltb d c) refl refl (λ k. le_text-IsTextBefore x y k)
  where
    go :
        (a b : Bool)
        → ltb c d ≡ a
        → ltb d c ≡ b
        → (le_text x y ≡ true → IsTextBefore x y)
        → IsTextBefore (c ∷ x) (d ∷ y)
    go true b p q rest = differs [] x y c d refl refl (ground (arith, p))
    go false true p q rest = cc (rw (p, q) at h)
    go false false p q rest =
        let same : d ≡ c = ground (arith, p, q) in
        rw same (cons-IsTextBefore c x y (rest (rw (p, q) at h)))

module _ {F : Type 0} ⦃r : Real F⦄ where
  -- A missing price is above all others.
  pub data IsCheaper : Option F → Option F → Type 0 where
    priced : {x : F} → IsCheaper (some x) none
    below : {x y : F} → r.le y x ≡ false → IsCheaper (some x) (some y)

  pub data IsSamePrice : Option F → Option F → Type 0 where
    unpriced : IsSamePrice none none
    equal : {x y : F} → r.le x y ≡ true → r.le y x ≡ true → IsSamePrice (some x) (some y)

  -- The product `a` has the higher score; or the same score and the lower price; or both the same and
  -- its SKU comes first.
  pub data IsBefore (a b : RankedProduct F) : Type 0 where
    higher : r.le a.ranking.total_score b.ranking.total_score ≡ false → IsBefore a b
    cheaper :
        r.le a.ranking.total_score b.ranking.total_score ≡ true
        → r.le b.ranking.total_score a.ranking.total_score ≡ true
        → IsCheaper a.product.current_price_gbp b.product.current_price_gbp
        → IsBefore a b
    first :
        r.le a.ranking.total_score b.ranking.total_score ≡ true
        → r.le b.ranking.total_score a.ranking.total_score ≡ true
        → IsSamePrice a.product.current_price_gbp b.product.current_price_gbp
        → IsTextBefore a.product.sku b.product.sku
        → IsBefore a b

  -- Each product comes before all that follow.
  abbrev pub IsSorted : List (RankedProduct F) → Type 0
  IsSorted [] = Unit
  IsSorted (x ∷ xs) = All (IsBefore x) xs × IsSorted xs

  same_price-IsSamePrice : (p q : Option F) → same_price p q ≡ true → IsSamePrice p q
  same_price-IsSamePrice none none h = unpriced
  same_price-IsSamePrice none (some y) h = cc
  same_price-IsSamePrice (some x) none h = cc
  same_price-IsSamePrice (some x) (some y) h = equal (ground (arith, h)) (ground (arith, h))

  lower_price-IsCheaper : (p q : Option F) → lower_price p q ≡ true → IsCheaper p q
  lower_price-IsCheaper none q h = cc
  lower_price-IsCheaper (some x) none h = priced
  lower_price-IsCheaper (some x) (some y) h = below (ground (arith, h))

  pub precedes-IsBefore : (a b : RankedProduct F) → precedes a b ≡ true → IsBefore a b
  unfolding precedes
  precedes-IsBefore a b h =
      go (same_real a.ranking.total_score b.ranking.total_score)
        (same_price a.product.current_price_gbp b.product.current_price_gbp) refl refl
    where
      go :
          (s p : Bool)
          → same_real a.ranking.total_score b.ranking.total_score ≡ s
          → same_price a.product.current_price_gbp b.product.current_price_gbp ≡ p
          → IsBefore a b
      go false p e f = let less = rw e at h in higher (ground (arith, less))
      go true false e f =
          cheaper (ground (arith, e)) (ground (arith, e))
            (lower_price-IsCheaper _ _ (rw (e, f) at h))
      go true true e f =
          first (ground (arith, e)) (ground (arith, e)) (same_price-IsSamePrice _ _ f)
            (le_text-IsTextBefore _ _ (rw (e, f) at h))
