-- ===== src/Fit/Sizes.antt =====
-- agents/fit/fit_calculator.py: which size is recommended, and from which evidence.
use neutail.Base.{
  ℕ, zero, suc, ◌+◌, ◌-◌, String, Bool, true, false, ◌&&◌, Option, none, some, List, [], ◌∷◌, ltb,
  leb, if◌then◌else◌, or_default, ◌==◌, nat_eq, string_eq, pair_eq,
}
use neutail.Base.Lists.{any, select, contains}
use neutail.Base.Real.{Real, lt, zero_real}
use neutail.Base.Table.{Table, get, put}
use neutail.Fit.Schema.{
  PurchaseEvidence, ReturnEvidence, SimilarCase, Evidence, FitOutcome, kept, returned, Relevance,
  same_sku, same_brand, same_category, Steps, up, down,
}

-- A text that is not empty, if it is there: what Python takes as true.
abbrev pub given : Option String → Option String
given none = none
given (some s) = if s == "" then none else some s

-- `a or b` on optional values
abbrev pub or_else : Option String → Option String → Option String
or_else none b = b
or_else (some a) b = some a

-- `size in available`, for a size that may be `None`
abbrev pub is_in : Option String → List String → Bool
is_in none available = false
is_in (some s) available = contains s available

-- The size if it is in the list.
abbrev pub if_in : List String → Option String → Option String
if_in available none = none
if_in available (some s) = if contains s available then some s else none

abbrev pub is_kept : FitOutcome → Bool
is_kept kept = true
is_kept returned = false

-- `_kept_size`, for a size that counts as true
unfoldable pub kept_size : List PurchaseEvidence → Option String → Bool
kept_size cases none = false
kept_size cases (some size) =
    any (λ (c : PurchaseEvidence). c.purchased_size == size && is_kept c.outcome) cases

abbrev pub same_relevance : Relevance → Relevance → Bool
same_relevance same_sku same_sku = true
same_relevance same_brand same_brand = true
same_relevance same_category same_category = true
same_relevance _ _ = false

abbrev pub is_purchased : Option String → ReturnEvidence → Bool
is_purchased none item = false
is_purchased (some size) item = item.purchased_size == size

abbrev pub of_relevance : Relevance → Option String → List ReturnEvidence → List ReturnEvidence
of_relevance relevance requested returns =
    select (λ (item : ReturnEvidence). same_relevance item.relevance relevance)
      (select (is_purchased requested) returns)

-- The first list that is not empty, where a kept size hides what is behind it.
abbrev pub closest :
    List ReturnEvidence
    → Bool
    → List ReturnEvidence
    → Bool
    → List ReturnEvidence
    → List ReturnEvidence
closest (x ∷ exact) exact_kept brand brand_kept category = x ∷ exact
closest [] true brand brand_kept category = []
closest [] false (x ∷ brand) brand_kept category = x ∷ brand
closest [] false [] true category = []
closest [] false [] false category = category

unfoldable pub matching_returns : {F : Type 0} → Evidence F → Option String → List ReturnEvidence
matching_returns evidence requested =
    let returns = evidence.size_related_returns in
    closest (of_relevance same_sku requested returns)
      (kept_size evidence.same_sku_purchases requested) (of_relevance same_brand requested returns)
      (kept_size evidence.same_brand_purchases requested)
      (of_relevance same_category requested returns)

-- `Counter(sizes)`, and `weights[size] += weight`
module _ {W : Type 0} (add : W → W → W) (zero_weight : W) where
  abbrev pub tally : Table String W → List (String × W) → Table String W
  tally counts [] = counts
  tally counts ((size, w) ∷ rest) =
      tally (put size (add (or_default zero_weight (get size counts)) w) counts) rest

-- `most_common(1)`: the first of those with the largest weight
abbrev pub most_common_from : {W : Type 0} → (W → W → Bool) → String → W → Table String W → String
most_common_from less best w [] = best
most_common_from less best w ((size, v) ∷ rest) =
    let keep = most_common_from less best w rest in
    let take = most_common_from less size v rest in if less w v then take else keep

abbrev pub most_common : {W : Type 0} → (W → W → Bool) → Table String W → Option String
most_common less [] = none
most_common less ((size, w) ∷ rest) = some (most_common_from less size w rest)

abbrev pub add_size : Option String → List (String × ℕ) → List (String × ℕ)
add_size none sizes = sizes
add_size (some s) sizes = (s, 1) ∷ sizes

-- The exchange sizes that are available, each once for every return.
abbrev pub exchange_sizes : List String → List ReturnEvidence → List (String × ℕ)
exchange_sizes available [] = []
exchange_sizes available (item ∷ rest) =
    add_size (if_in available item.exchange_size) (exchange_sizes available rest)

-- `_preferred_exchange_size`
unfoldable pub preferred_exchange_size : List ReturnEvidence → List String → Option String
preferred_exchange_size returns available =
    most_common ltb (tally (λ a b. a + b) 0 [] (exchange_sizes available returns))

-- `available[index]`, or `None` out of range
abbrev pub nth : List String → ℕ → Option String
nth [] n = none
nth (s ∷ rest) zero = some s
nth (s ∷ rest) (suc n) = nth rest n

abbrev pub index_of : String → List String → Option ℕ
index_of s [] = none
index_of s (t ∷ rest) = if s == t then some 0 else next (index_of s rest)
  where
    next : Option ℕ → Option ℕ
    next none = none
    next (some n) = some (suc n)

-- `available[index + steps]`, or `None` out of range
abbrev pub moved : List String → Steps → Option ℕ → Option String
moved available steps none = none
moved available (up n) (some i) = nth available (i + n)
moved available (down n) (some i) = if leb n i then nth available (i - n) else none

-- `_adjusted_size`
unfoldable pub adjusted_size : Option String → Steps → List String → Option String
adjusted_size none steps available = none
adjusted_size (some base) steps available = moved available steps (index_of base available)

module _ {F : Type 0} ⦃r : Real F⦄ where
  abbrev pub vector_sizes : List String → List (SimilarCase F) → List (String × F)
  vector_sizes available [] = []
  vector_sizes available (item ∷ rest) =
      let sizes = vector_sizes available rest in
      if is_kept item.outcome && contains item.purchased_size available
      then (item.purchased_size, item.similarity_score) ∷ sizes
      else sizes

  -- `_vector_supported_size`
  unfoldable pub vector_supported_size : Evidence F → List String → Option String
  vector_supported_size evidence available =
      most_common lt (tally r.add zero_real [] (vector_sizes available evidence.similar_fit_cases))
