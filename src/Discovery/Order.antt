-- ===== src/Discovery/Order.antt =====
-- The order of the ranking: total, transitive, and two products that tie have one SKU.
use neutail.Base.{
  ℕ, ◌≡◌, refl, inl, inr, Bool, true, false, not, ◌&&◌, ◌||◌, Option, none, some, List, [], ◌∷◌,
  arith, if◌then◌else◌, nat_eq, string_eq, pair_eq,
}
use neutail.Base.Real.{Real, IsReal}
use neutail.Base.Text.{codes_eq}
use neutail.Discovery.Schema.{RankedProduct}
use neutail.Discovery.Lexical.{
  IsTotal, IsTransitive, lexical, lexical-IsTotal, lexical-IsTransitive, lexical-ties,
}
use neutail.Discovery.{precedes, le_text, same_price, lower_price}

le_text-IsTotal : IsTotal le_text
le_text-IsTotal [] y = inl refl
le_text-IsTotal (c ∷ x) [] = inr refl
le_text-IsTotal (c ∷ x) (d ∷ y) = ground (arith, le_text-IsTotal x y)

le_text-IsTransitive : IsTransitive le_text
le_text-IsTransitive [] y z h k = refl
le_text-IsTransitive (c ∷ x) [] z h k = cc
le_text-IsTransitive (c ∷ x) (d ∷ y) [] h k = cc
le_text-IsTransitive (c ∷ x) (d ∷ y) (e ∷ z) h k = ground (arith, h, k, le_text-IsTransitive x y z)

le_text-ties : (x y : List ℕ) → le_text x y ≡ true → le_text y x ≡ true → x ≡ y
le_text-ties [] [] h k = refl
le_text-ties [] (d ∷ y) h k = cc
le_text-ties (c ∷ x) [] h k = cc
le_text-ties (c ∷ x) (d ∷ y) h k = ground (arith, h, k, le_text-ties x y)

module _ {F : Type 0} ⦃r : Real F⦄ (laws : IsReal F) where
  open laws use {le_trans, le_total}

  abbrev by_score : RankedProduct F → RankedProduct F → Bool
  by_score a b = r.le b.ranking.total_score a.ranking.total_score

  abbrev le_price : Option F → Option F → Bool
  le_price p none = true
  le_price none (some y) = false
  le_price (some x) (some y) = r.le x y

  abbrev by_price : RankedProduct F → RankedProduct F → Bool
  by_price a b = le_price a.product.current_price_gbp b.product.current_price_gbp

  abbrev by_sku : RankedProduct F → RankedProduct F → Bool
  by_sku a b = le_text a.product.sku b.product.sku

  le_price-IsTotal : IsTotal le_price
  le_price-IsTotal none none = inl refl
  le_price-IsTotal none (some y) = inr refl
  le_price-IsTotal (some x) none = inl refl
  le_price-IsTotal (some x) (some y) = le_total x y

  le_price-IsTransitive : IsTransitive le_price
  le_price-IsTransitive p q none h k = refl
  le_price-IsTransitive p none (some z) h k = cc
  le_price-IsTransitive none (some y) (some z) h k = cc
  le_price-IsTransitive (some x) (some y) (some z) h k = le_trans x y z h k

  by_keys : RankedProduct F → RankedProduct F → Bool
  by_keys = lexical by_score (lexical by_price by_sku)

  price-lexical :
      (p q : Option F) (b : Bool)
      → (if same_price p q then b else lower_price p q)
        ≡ (le_price p q && (not (le_price q p) || b))
  price-lexical none none b = refl
  price-lexical none (some y) b = refl
  price-lexical (some x) none b = refl
  price-lexical (some x) (some y) b = ground (arith, le_total x y)

  precedes-by_keys : (a b : RankedProduct F) → precedes a b ≡ by_keys a b
  unfolding precedes by_keys
  precedes-by_keys a b =
      rw (price-lexical a.product.current_price_gbp b.product.current_price_gbp (by_sku a b))
        (ground (arith, le_total a.ranking.total_score b.ranking.total_score))

  pub precedes-IsTotal : IsTotal (precedes {F = F})
  unfolding by_keys
  precedes-IsTotal a b =
      rw (precedes-by_keys a b, precedes-by_keys b a)
        (lexical-IsTotal by_score (lexical by_price by_sku) (λ x y. le_total _ _)
          (lexical-IsTotal by_price by_sku (λ x y. le_price-IsTotal _ _)
            (λ x y. le_text-IsTotal x.product.sku y.product.sku))
          a b)

  pub precedes-IsTransitive : IsTransitive (precedes {F = F})
  unfolding by_keys
  precedes-IsTransitive a b c h k = rw (precedes-by_keys a c) (
      lexical-IsTransitive by_score (lexical by_price by_sku) (λ x y z p q. le_trans _ _ _ q p)
        (lexical-IsTransitive by_price by_sku (λ x y z. le_price-IsTransitive _ _ _)
          (λ x y z. le_text-IsTransitive x.product.sku y.product.sku z.product.sku))
        a b c (rw (precedes-by_keys a b) at h) (rw (precedes-by_keys b c) at k))

  -- Two products that tie have one SKU.
  pub precedes-ties :
      (a b : RankedProduct F)
      → precedes a b ≡ true
      → precedes b a ≡ true
      → a.product.sku ≡ b.product.sku
  unfolding by_keys
  precedes-ties a b h k =
      let (h', k') =
        lexical-ties by_score (lexical by_price by_sku) a b (rw (precedes-by_keys a b) at h)
          (rw (precedes-by_keys b a) at k) in
      let (h₂, k₂) = lexical-ties by_price by_sku a b h' k' in le_text-ties _ _ h₂ k₂
