-- ===== src/Upsell/Choice.antt =====
-- Policy and selector together: who is eligible is shown an offer that the policy allows.
use neutail.Base.{
  ℕ, String, ◌≡◌, refl, sym, Bool, true, false, ◌&&◌, Option, none, some, List, [], ◌∷◌, arith,
  if◌then◌else◌, nat_eq, string_eq, pair_eq, ok,
}
use mathlib.Core.Path.{subst}
use neutail.Base.Real.{Real}
use neutail.Base.Text.{Unicode}
use neutail.Commerce.Segments.{
  Segment, prestige_champion, value_defender, aspiring_loyalist, price_explorer,
}
use neutail.Upsell.Schema.{
  PolicyConfig, Session, EvaluationRequest, EligibilityResult, OfferType, TriggerType,
  styling_advisory, style_plus, style_plus_trial, high_product_engagement, premium_product_interest,
  cart_abandonment, chronic_fit_risk, styling_engagement, loyalty_threshold_reached,
}
use neutail.Upsell.{evaluate_eligibility, eligible_offers, unsubscribed}
use neutail.Upsell.Selector.{
  Band, low, medium, high, choose, select_offer, preferred, first_allowed, is_allowed, is_chronic,
  is_value_text, folded_segment,
}
use neutail.Upsell.Permit.{evaluate-IsPermitted}

-- The three forms that the offers of the policy take.
data PolicyOffers : List OfferType → Type 0 where
  advisory : PolicyOffers (styling_advisory ∷ [])
  with_trial : PolicyOffers (styling_advisory ∷ style_plus_trial ∷ [])
  with_plus : PolicyOffers (styling_advisory ∷ style_plus ∷ [])

eligible_offers-PolicyOffers : (t : TriggerType) (s : Segment) → PolicyOffers (eligible_offers t s)
eligible_offers-PolicyOffers chronic_fit_risk s = advisory
eligible_offers-PolicyOffers cart_abandonment s = advisory
eligible_offers-PolicyOffers high_product_engagement prestige_champion = with_trial
eligible_offers-PolicyOffers high_product_engagement aspiring_loyalist = with_trial
eligible_offers-PolicyOffers high_product_engagement value_defender = advisory
eligible_offers-PolicyOffers high_product_engagement price_explorer = advisory
eligible_offers-PolicyOffers premium_product_interest prestige_champion = with_trial
eligible_offers-PolicyOffers premium_product_interest aspiring_loyalist = with_trial
eligible_offers-PolicyOffers premium_product_interest value_defender = advisory
eligible_offers-PolicyOffers premium_product_interest price_explorer = advisory
eligible_offers-PolicyOffers styling_engagement prestige_champion = with_plus
eligible_offers-PolicyOffers styling_engagement aspiring_loyalist = with_plus
eligible_offers-PolicyOffers styling_engagement value_defender = advisory
eligible_offers-PolicyOffers styling_engagement price_explorer = advisory
eligible_offers-PolicyOffers loyalty_threshold_reached prestige_champion = with_trial
eligible_offers-PolicyOffers loyalty_threshold_reached aspiring_loyalist = with_trial
eligible_offers-PolicyOffers loyalty_threshold_reached value_defender = advisory
eligible_offers-PolicyOffers loyalty_threshold_reached price_explorer = advisory

unsubscribed-PolicyOffers :
    (m : Bool) (t : TriggerType) (s : Segment) → PolicyOffers (unsubscribed m (eligible_offers t s))
unfolding unsubscribed
unsubscribed-PolicyOffers false t s = eligible_offers-PolicyOffers t s
unsubscribed-PolicyOffers true t s = go _ (eligible_offers-PolicyOffers t s)
  where
    go : (offers : List OfferType) → PolicyOffers offers → PolicyOffers (unsubscribed true offers)
    go _ advisory = advisory
    go _ with_trial = advisory
    go _ with_plus = advisory

abbrev Chosen : List OfferType → Option OfferType → Type 0
Chosen offers c = (o : OfferType) × (c ≡ some o) × (is_allowed offers o ≡ true)

first_allowed-Chosen :
    (offers : List OfferType) → PolicyOffers offers → Chosen offers (first_allowed offers)
unfolding first_allowed
first_allowed-Chosen _ advisory = (styling_advisory, refl, refl)
first_allowed-Chosen _ with_trial = (styling_advisory, refl, refl)
first_allowed-Chosen _ with_plus = (styling_advisory, refl, refl)

-- A special offer or the first one.
or_first :
    (offers : List OfferType)
    → PolicyOffers offers
    → (o : OfferType) (b : Bool) → (b ≡ true → is_allowed offers o ≡ true)
    → Chosen offers (if b then some o else first_allowed offers)
or_first offers p o true h = (o, refl, h refl)
or_first offers p o false h = first_allowed-Chosen offers p

preferred-Chosen :
    (t : TriggerType) (band : Band) (offers : List OfferType)
    → PolicyOffers offers
    → Chosen offers (preferred t band offers)
unfolding preferred
preferred-Chosen high_product_engagement band offers p =
    or_first offers p style_plus_trial _ (λ h. ground (arith, h))
preferred-Chosen premium_product_interest band offers p =
    or_first offers p style_plus_trial _ (λ h. ground (arith, h))
preferred-Chosen cart_abandonment band offers p = first_allowed-Chosen offers p
preferred-Chosen chronic_fit_risk band offers p = first_allowed-Chosen offers p
preferred-Chosen loyalty_threshold_reached band offers p = first_allowed-Chosen offers p
preferred-Chosen styling_engagement low offers p = first_allowed-Chosen offers p
preferred-Chosen styling_engagement medium offers p = first_allowed-Chosen offers p
preferred-Chosen styling_engagement high offers p = or_first offers p style_plus _ (λ h. h)

has_advisory :
    (offers : List OfferType) → PolicyOffers offers → is_allowed offers styling_advisory ≡ true
has_advisory _ advisory = refl
has_advisory _ with_trial = refl
has_advisory _ with_plus = refl

module _ ⦃u : Unicode⦄ where
  choose-Chosen :
      (t : TriggerType) (band : Band) (segment : String) (offers : List OfferType)
      → PolicyOffers offers
      → Chosen offers (choose t band segment offers)
  unfolding choose
  choose-Chosen t band segment offers p = go (is_chronic t) (is_value_text (folded_segment segment))
    where
      go :
          (b c : Bool)
          → Chosen offers (
              if b && is_allowed offers styling_advisory
              then some styling_advisory
              else if c
              then (if is_allowed offers styling_advisory then some styling_advisory else none)
              else preferred t band offers)
      go true c = rw (has_advisory offers p) (styling_advisory, refl, has_advisory offers p)
      go false true = rw (has_advisory offers p) (styling_advisory, refl, has_advisory offers p)
      go false false = preferred-Chosen t band offers p

  Selected : TriggerType → Band → String → List OfferType → Type 0
  Selected t band segment offers =
      (o : OfferType) × (select_offer t band segment offers ≡ ok (some o))
      × (is_allowed offers o ≡ true)

  select_cons :
      (t : TriggerType) (band : Band) (segment : String) (a : OfferType) (offers : List OfferType)
      → PolicyOffers (a ∷ offers)
      → Selected t band segment (a ∷ offers)
  unfolding Selected select_offer
  select_cons t band segment a offers p =
      let (o, q, h) = choose-Chosen t band segment (a ∷ offers) p in (o, rw (q, h), h)

  select-Selected :
      (t : TriggerType) (band : Band) (segment : String) (offers : List OfferType)
      → PolicyOffers offers
      → Selected t band segment offers
  select-Selected t band segment _ advisory = select_cons t band segment _ _ advisory
  select-Selected t band segment _ with_trial = select_cons t band segment _ _ with_trial
  select-Selected t band segment _ with_plus = select_cons t band segment _ _ with_plus

  -- Who is eligible is always shown an offer, whatever the trigger, the band and the segment that the
  -- selector is given: the selector neither raises nor gives up, and picks an offer of the policy's.
  pub select-allowed :
      {F : Type 0} ⦃r : Real F⦄ (config : PolicyConfig F) (session : Session F) (now : ℕ)
      (request : EvaluationRequest F) (result : EligibilityResult) (t : TriggerType) (band : Band)
      (segment : String)
      → evaluate_eligibility config session now request ≡ ok result
      → result.eligible ≡ true
      → (o : OfferType) × (select_offer t band segment result.eligible_offers ≡ ok (some o))
        × (is_allowed result.eligible_offers o ≡ true)
  unfolding Selected
  select-allowed config session now request result t band segment h e =
      let (customer, s, t', p) = evaluate-IsPermitted config session now request result h e in
      select-Selected t band segment result.eligible_offers
        (subst PolicyOffers (sym p.offers_eq) (unsubscribed-PolicyOffers _ t' s))
