-- ===== src/Upsell/Selector.antt =====
-- agents/upsell/offer_selector.py: which of the offers that the policy allows is shown.
use neutail.Base.{
  ℕ, String, Bool, true, false, not, ◌&&◌, ◌||◌, Option, none, some, List, [], ◌∷◌, if◌then◌else◌,
  ◌==◌, nat_eq, string_eq, pair_eq, Outcome, ok, raised,
}
use neutail.Base.Lists.{any, find_first}
use neutail.Base.Text.{Unicode, codes, codes_eq, blank_out, casefold}
use neutail.Upsell.Schema.{
  TriggerType, high_product_engagement, premium_product_interest, chronic_fit_risk,
  styling_engagement, OfferType, styling_advisory, style_plus_trial, style_plus, same_offer,
}

pub data Band : Type 0 where
  low medium high : Band

pub data SelectorError : Type 0 where
  disallowed_offer : SelectorError

abbrev pub is_allowed : List OfferType → OfferType → Bool
is_allowed allowed o = any (same_offer o) allowed

abbrev pub is_band_at_least_medium : Band → Bool
is_band_at_least_medium low = false
is_band_at_least_medium _ = true

-- The first offer that is allowed, by value to the customer.
unfoldable pub first_allowed : List OfferType → Option OfferType
first_allowed allowed =
    find_first (is_allowed allowed) (styling_advisory ∷ style_plus_trial ∷ style_plus ∷ [])

-- What the trigger and the band prefer to the first offer.
unfoldable pub preferred : TriggerType → Band → List OfferType → Option OfferType
preferred styling_engagement high allowed =
    if is_allowed allowed style_plus then some style_plus else first_allowed allowed
preferred high_product_engagement band allowed =
    if is_band_at_least_medium band && is_allowed allowed style_plus_trial
    then some style_plus_trial
    else first_allowed allowed
preferred premium_product_interest band allowed =
    if is_band_at_least_medium band && is_allowed allowed style_plus_trial
    then some style_plus_trial
    else first_allowed allowed
preferred trigger_type band allowed = first_allowed allowed

abbrev pub is_chronic : TriggerType → Bool
is_chronic chronic_fit_risk = true
is_chronic _ = false

-- `selected is not None and selected not in allowed`
abbrev pub is_disallowed : List OfferType → Option OfferType → Bool
is_disallowed allowed none = false
is_disallowed allowed (some o) = not (is_allowed allowed o)

module _ ⦃u : Unicode⦄ where
  abbrev pub folded_segment : String → List ℕ
  folded_segment segment = casefold (blank_out b'_' (codes segment))

  abbrev pub is_value_text : List ℕ → Bool
  is_value_text s = s == codes "value defender" || s == codes "price explorer"

  unfoldable pub choose : TriggerType → Band → String → List OfferType → Option OfferType
  unfolding first_allowed preferred
  choose trigger_type band segment allowed =
      if is_chronic trigger_type && is_allowed allowed styling_advisory
      then some styling_advisory
      else if is_value_text (folded_segment segment)
      then (if is_allowed allowed styling_advisory then some styling_advisory else none)
      else preferred trigger_type band allowed

  -- `select`
  unfoldable pub select_offer :
      TriggerType → Band → String → List OfferType → Outcome SelectorError (Option OfferType)
  unfolding choose
  select_offer trigger_type band segment [] = ok none
  select_offer trigger_type band segment (o ∷ offers) =
      let selected = choose trigger_type band segment (o ∷ offers) in
      if is_disallowed (o ∷ offers) selected then raised disallowed_offer else ok selected
