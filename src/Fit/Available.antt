-- ===== src/Fit/Available.antt =====
-- A recommended size is in stock, wherever the recommendation comes from.
use neutail.Base.{
  ℕ, zero, suc, ◌+◌, String, ◌≡◌, refl, inl, inr, Bool, true, false, ◌&&◌, ◌||◌, Option, none, some,
  List, [], ◌∷◌, arith, ltb, leb, if◌then◌else◌, Bool-cases, ◌==◌, nat_eq, string_eq, pair_eq,
  beq_self,
}
use mathlib.Core.Path.{subst}
use neutail.Base.Lists.{contains}
use neutail.Base.Real.{Real, lt, zero_real}
use neutail.Base.Table.{Table, put}
use neutail.Fit.Schema.{
  Evidence, Profile, FitPolicyConfig, ReturnEvidence, SimilarCase, Steps, up, down,
}
use neutail.Fit.Sizes.{
  given, or_else, if_in, tally, most_common, most_common_from, exchange_sizes, add_size,
  preferred_exchange_size, nth, moved, adjusted_size, vector_sizes, vector_supported_size, is_kept,
  kept_size,
}
use neutail.Fit.{settled_size, evaluate, usual_of}

-- The size, if there is one, is in stock.
abbrev InStock : List String → Option String → Type 0
InStock available none = Unit
InStock available (some s) = contains s available ≡ true

given-InStock :
    (available : List String) (o : Option String)
    → InStock available o
    → InStock available (given o)
given-InStock available none h = tt
given-InStock available (some s) h = ground (arith, h)

or_else-InStock :
    (available : List String) (a b : Option String)
    → InStock available a
    → InStock available b
    → InStock available (or_else a b)
or_else-InStock available none b h k = k
or_else-InStock available (some s) b h k = h

if_in-InStock :
    (available : List String) (o : Option String) → InStock available (if_in available o)
if_in-InStock available none = tt
if_in-InStock available (some s) = elim (Bool-cases (contains s available)) [
  | inl q ↦ rw q q
  | inr q ↦ rw q tt
]

if-InStock :
    (available : List String) (b : Bool) (o : Option String)
    → InStock available o
    → InStock available (if b then o else none)
if-InStock available true o h = h
if-InStock available false o h = tt

-- All sizes of a table or a list of weights are in stock.
abbrev AllIn : {W : Type 0} → List String → List (String × W) → Type 0
AllIn available [] = Unit
AllIn available ((s, w) ∷ rest) = (contains s available ≡ true) × AllIn available rest

module _ {W : Type 0} (available : List String) where
  put-AllIn :
      (s : String) (w : W) (t : Table String W)
      → contains s available ≡ true
      → AllIn available t
      → AllIn available (put s w t)
  unfolding put
  put-AllIn s w [] h k = (h, tt)
  put-AllIn s w ((j, v) ∷ t) h (i, k) = elim (Bool-cases (j == s)) [
    | inl q ↦ rw q (h, k)
    | inr q ↦ rw q (i, put-AllIn s w t h k)
  ]

  tally-AllIn :
      (add : W → W → W) (z : W) (t : Table String W) (sizes : List (String × W))
      → AllIn available t
      → AllIn available sizes
      → AllIn available (tally add z t sizes)
  tally-AllIn add z t [] h k = h
  tally-AllIn add z t ((s, w) ∷ rest) h (i, k) =
      tally-AllIn add z (put s _ t) rest (put-AllIn s _ t i h) k

  most_common_from-in :
      (less : W → W → Bool) (s : String) (w : W) (t : Table String W)
      → contains s available ≡ true
      → AllIn available t
      → contains (most_common_from less s w t) available ≡ true
  most_common_from-in less s w [] h k = h
  most_common_from-in less s w ((v, x) ∷ rest) h (i, k) = elim (Bool-cases (less w x)) [
    | inl q ↦ rw q (most_common_from-in less v x rest i k)
    | inr q ↦ rw q (most_common_from-in less s w rest h k)
  ]

  most_common-InStock :
      (less : W → W → Bool) (t : Table String W)
      → AllIn available t
      → InStock available (most_common less t)
  most_common-InStock less [] k = tt
  most_common-InStock less ((s, w) ∷ rest) (i, k) = most_common_from-in less s w rest i k

module _ (available : List String) where
  add_size-AllIn :
      (o : Option String) (sizes : List (String × ℕ))
      → InStock available o
      → AllIn available sizes
      → AllIn available (add_size o sizes)
  add_size-AllIn none sizes h k = k
  add_size-AllIn (some s) sizes h k = (h, k)

  exchange_sizes-AllIn :
      (returns : List ReturnEvidence) → AllIn available (exchange_sizes available returns)
  exchange_sizes-AllIn [] = tt
  exchange_sizes-AllIn (item ∷ rest) =
      add_size-AllIn (if_in available item.exchange_size) _
        (if_in-InStock available item.exchange_size) (exchange_sizes-AllIn rest)

  exchange-InStock :
      (returns : List ReturnEvidence)
      → InStock available (preferred_exchange_size returns available)
  unfolding preferred_exchange_size
  exchange-InStock returns =
      most_common-InStock available ltb _
        (tally-AllIn available (λ a b. a + b) 0 [] _ tt (exchange_sizes-AllIn returns))

contains-later :
    (s t : String) (rest : List String) → contains s rest ≡ true → contains s (t ∷ rest) ≡ true
contains-later s t rest h = ground (arith, h)

nth-InStock : (available : List String) (n : ℕ) → InStock available (nth available n)
nth-InStock [] n = tt
nth-InStock (s ∷ rest) zero = ground (arith, beq_self s)
nth-InStock (s ∷ rest) (suc n) = go (nth rest n) (nth-InStock rest n)
  where
    go : (o : Option String) → InStock rest o → InStock (s ∷ rest) o
    go none h = tt
    go (some t) h = contains-later t s rest h

moved-InStock :
    (available : List String) (steps : Steps) (o : Option ℕ)
    → InStock available (moved available steps o)
moved-InStock available steps none = tt
moved-InStock available (up n) (some i) = nth-InStock available _
moved-InStock available (down n) (some i) =
    if-InStock available (leb n i) _ (nth-InStock available _)

adjusted-InStock :
    (available : List String) (steps : Steps) (o : Option String)
    → InStock available (adjusted_size o steps available)
unfolding adjusted_size
adjusted-InStock available steps none = tt
adjusted-InStock available steps (some base) = moved-InStock available steps _

module _ {F : Type 0} ⦃r : Real F⦄ where
  vector_sizes-AllIn :
      (available : List String) (items : List (SimilarCase F))
      → AllIn available (vector_sizes available items)
  vector_sizes-AllIn available [] = tt
  vector_sizes-AllIn available (item ∷ rest) =
      go (is_kept item.outcome) (contains item.purchased_size available) refl
        (vector_sizes-AllIn available rest)
    where
      go :
          (a b : Bool)
          → contains item.purchased_size available ≡ b
          → AllIn available (vector_sizes available rest)
          → AllIn available (
              if a && b
              then (item.purchased_size, item.similarity_score) ∷ vector_sizes available rest
              else vector_sizes available rest)
      go true true q h = (q, h)
      go true false q h = h
      go false b q h = h

  vector-InStock :
      (evidence : Evidence F) (available : List String)
      → InStock available (vector_supported_size evidence available)
  unfolding vector_supported_size
  vector-InStock evidence available = most_common-InStock available lt _ (
      tally-AllIn {W = F} available r.add zero_real []
        (vector_sizes available evidence.similar_fit_cases) tt
        (vector_sizes-AllIn available evidence.similar_fit_cases))

  settled-InStock :
      (evidence : Evidence F) (requested usual : Option String) (available : List String) (k : Bool)
      (exchange : Option String)
      → InStock available exchange
      → InStock available (settled_size evidence requested usual available k exchange)
  unfolding settled_size
  settled-InStock evidence requested usual available k exchange h =
      let in_stock = or_else-InStock available in
      in_stock exchange _ h (
        in_stock _ _ (if-InStock available _ _ (adjusted-InStock available evidence.adjustment _)) (
          in_stock _ _ (if-InStock available k _ (if_in-InStock available requested))
            (in_stock _ _ (if_in-InStock available usual) (if_in-InStock available requested))))

  -- Whatever the evidence, a recommended size is one of the sizes that the product is available in.
  pub evaluate_available :
      (config : FitPolicyConfig F) (profile : Profile F) (available : List String)
      (requested : Option String) (evidence : Evidence F) (size : String)
      → (evaluate config profile available requested evidence).recommended_size ≡ some size
      → contains size available ≡ true
  unfolding evaluate
  evaluate_available config profile available requested evidence size h =
      subst (InStock available) h (
        or_else-InStock available _ _
          (settled-InStock evidence (given requested) (usual_of profile evidence) available
            (kept_size evidence.same_sku_purchases (given requested)
              || kept_size evidence.same_brand_purchases (given requested))
            _ (given-InStock available _ (exchange-InStock available _)))
          (given-InStock available _ (vector-InStock evidence available)))
