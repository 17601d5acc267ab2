-- ===== src/Agent/Allowed.antt =====
-- What the wording of a message and the selector allow (agents/upsell/agent.py, agents/upsell/offer_selector.py).
use mathlib.Core.Bool.{false≢true}
use neutail.Base.{
  ℕ, String, ◌≡◌, refl, sym, ◌∙◌, ◌≢◌, ◌⊎◌, inl, inr, Bool, true, false, Option, none, some, List,
  [], ◌∷◌, arith, ◌==◌, nat_eq, string_eq, pair_eq, ok,
}
use neutail.Base.Lists.{any}
use neutail.Base.Text.{Unicode, codes_eq, strip, casefold, has_infix}
use neutail.Upsell.Schema.{
  TriggerType, OfferType, high_product_engagement, premium_product_interest, cart_abandonment,
  chronic_fit_risk, styling_engagement, loyalty_threshold_reached,
}
use neutail.Upsell.Selector.{
  Band, low, medium, high, select_offer, choose, preferred, first_allowed, is_allowed,
  is_disallowed,
}
use neutail.Agent.{safe_message, prohibited}

-- The message is not empty and has no prohibited term.
abbrev pub IsSafe : ⦃u : Unicode⦄ → Option (List ℕ) → Type 0
IsSafe none = Unit
IsSafe (some m) = (m ≢ []) × (any (λ term. has_infix term (casefold m)) prohibited ≡ false)

first_allowed-allowed :
    (offers : List OfferType) → is_disallowed offers (first_allowed offers) ≡ false
unfolding first_allowed
first_allowed-allowed offers = ground arith

preferred-allowed :
    (t : TriggerType) (b : Band) (offers : List OfferType)
    → is_disallowed offers (preferred t b offers) ≡ false
unfolding preferred
preferred-allowed high_product_engagement b offers = ground (arith, first_allowed-allowed offers)
preferred-allowed premium_product_interest b offers = ground (arith, first_allowed-allowed offers)
preferred-allowed cart_abandonment b offers = first_allowed-allowed offers
preferred-allowed chronic_fit_risk b offers = first_allowed-allowed offers
preferred-allowed styling_engagement low offers = first_allowed-allowed offers
preferred-allowed styling_engagement medium offers = first_allowed-allowed offers
preferred-allowed styling_engagement high offers = ground (arith, first_allowed-allowed offers)
preferred-allowed loyalty_threshold_reached b offers = first_allowed-allowed offers

module _ ⦃u : Unicode⦄ where
  pub safe_message-IsSafe : (response : Option (List ℕ)) → IsSafe (safe_message response)
  unfolding safe_message
  safe_message-IsSafe none = tt
  safe_message-IsSafe (some t) =
      go (strip t == []) (any (λ term. has_infix term (casefold (strip t))) prohibited) refl refl
    where
      go :
          (b c : Bool)
          → (strip t == []) ≡ b
          → any (λ term. has_infix term (casefold (strip t))) prohibited ≡ c
          → IsSafe (safe_message (some t))
      go true c p q = rw p tt
      go false true p q = rw (p, q) tt
      go false false p q =
          rw (p, q) (λ e. false≢true (sym p ∙ (codes_eq.beq_iff (strip t) []).1 e), q)

  choose-allowed :
      (t : TriggerType) (b : Band) (segment : String) (offers : List OfferType)
      → is_disallowed offers (choose t b segment offers) ≡ false
  unfolding choose
  choose-allowed t b segment offers = ground (arith, preferred-allowed t b offers)

  -- The selector does not raise, and selects an allowed offer if any.
  pub select_offer-allowed :
      (t : TriggerType) (b : Band) (segment : String) (offers : List OfferType)
      → (select_offer t b segment offers ≡ ok none)
        ⊎ ((o : OfferType) × (select_offer t b segment offers ≡ ok (some o))
            × (is_allowed offers o ≡ true))
  unfolding select_offer
  select_offer-allowed t b segment [] = inl refl
  select_offer-allowed t b segment (x ∷ xs) = go (choose t b segment (x ∷ xs)) refl
    where
      go :
          (c : Option OfferType)
          → choose t b segment (x ∷ xs) ≡ c
          → (select_offer t b segment (x ∷ xs) ≡ ok none)
            ⊎ ((o : OfferType) × (select_offer t b segment (x ∷ xs) ≡ ok (some o))
                × (is_allowed (x ∷ xs) o ≡ true))
      go none e = inl (rw (choose-allowed t b segment (x ∷ xs), e) refl)
      go (some o) e =
          let fits = choose-allowed t b segment (x ∷ xs) in
          let allowed : is_disallowed (x ∷ xs) (some o) ≡ false = rw e at fits in
          inr (o, rw (fits, e) refl, ground (arith, allowed))
