-- ===== src/Agent/Offered.antt =====
-- What the upsell agent returns, whatever its tools and the language model do.
use neutail.Agent.Allowed.{safe_message-IsSafe, IsSafe, select_offer-allowed}
use neutail.Base.{
  raised, ◌&&◌, ℕ, String, ◌≡◌, refl, ◌⊎◌, inl, inr, true, false, Option, none, some, List,
  Bool-cases, nat_eq, string_eq, pair_eq, Outcome, ok,
}
use neutail.Base.Lists.{all, contains}
use neutail.Base.Real.{Real}
use neutail.Base.Text.{Unicode, codes_eq}
use neutail.Upsell.Schema.{OfferType, EligibilityResult}
use neutail.Upsell.Scorer.{ScoringConfig, OpportunityScore, calculate, score_result}
use neutail.Upsell.Selector.{select_offer, is_allowed}
use neutail.Agent.{
  requested, execute, with_tools, with_loyalty, with_context, judged, scored, selected, show,
  generate_message, worded, required_tools,
}
use neutail.Agent.Schema.{
  Tools, UpsellRequest, UpsellResult, Error, invalid_request, fits, request_of, evaluation_request,
  scoring_input, is_consistent, failed, no_offer, offer_available,
}

-- The result shows this offer.
abbrev pub IsOffered : {F : Type 0} → OfferType → Outcome Error (UpsellResult F) → Type 0
IsOffered {F} offer out =
    (x : UpsellResult F) × (out ≡ ok x)
    × (x.status ≡ offer_available)
    × (x.should_offer ≡ true)
    × (x.offer ≡ some offer)

module _ {W F P : Type 0} ⦃u : Unicode⦄ ⦃r : Real F⦄ (tools : Tools W F P)
    (config : ScoringConfig F) (q : UpsellRequest F) where
  -- A result without an offer, one with an offer that the policy's tool has allowed, or the raise of a
  -- request that is not within its bounds.
  pub data IsResult (out : Outcome Error (UpsellResult F)) : Type 0 where
    without :
        (x : UpsellResult F)
        → out ≡ ok x
        → (x.status ≡ failed) ⊎ (x.status ≡ no_offer)
        → x.should_offer ≡ false
        → x.offer ≡ none
        → x.message ≡ none
        → x.llm_invoked ≡ false
        → IsResult out
    offered :
        (x : UpsellResult F) (w w' : W) (e : EligibilityResult) (offer : OfferType)
        → out ≡ ok x
        → tools.evaluate_upsell (request_of q) w ≡ (w', some e)
        → e.eligible ≡ true
        → is_allowed e.eligible_offers offer ≡ true
        → x.status ≡ offer_available
        → x.should_offer ≡ true
        → x.offer ≡ some offer
        → IsSafe x.message
        → IsResult out
    rejected :
        out ≡ raised invalid_request → (fits q.customer_id && fits q.segment) ≡ false → IsResult out

  message-IsSafe :
      (o : OfferType) (reasons : List String) (p : Option P) (w : W)
      → IsSafe (generate_message tools config o reasons p w).1
  unfolding generate_message worded
  message-IsSafe o reasons p w = go (tools.invoke o reasons p w).1
    where
      go : (response : Option (Option (List ℕ))) → IsSafe (worded tools config response)
      go none = tt
      go (some response) = safe_message-IsSafe response

  scored-IsResult :
      (names : List String) (e : EligibilityResult) (opportunity : OpportunityScore F) (w w₀ w' : W)
      → tools.evaluate_upsell (request_of q) w₀ ≡ (w', some e)
      → e.eligible ≡ true
      → IsResult (scored tools config q names e w (ok opportunity)).1
  unfolding scored selected show
  scored-IsResult names e opportunity w w₀ w' h k =
      elim (select_offer-allowed q.trigger_type opportunity.band q.segment e.eligible_offers) [
        | inl none_selected ↦ rw none_selected (without _ refl (inr refl) refl refl refl refl)
        | inr (offer, is_selected, allowed) ↦ rw is_selected (
            offered _ w₀ w' e offer refl h k allowed refl refl refl
              (message-IsSafe offer opportunity.reason_codes _ _))
      ]

  judged-IsResult :
      (names : List String) (tier : Option String) (engagement : F) (w w₀ w' : W)
      (o : Option EligibilityResult)
      → tools.evaluate_upsell (request_of q) w₀ ≡ (w', o)
      → IsResult (judged tools config q names tier engagement w o).1
  unfolding judged calculate
  judged-IsResult names tier engagement w w₀ w' none h =
      without _ refl (inl refl) refl refl refl refl
  judged-IsResult names tier engagement w w₀ w' (some e) h = elim (Bool-cases (is_consistent e)) [
    | inl consistent ↦ elim (Bool-cases e.eligible) [
      | inl k ↦
          rw (consistent, k)
            (scored-IsResult names e (score_result config (scoring_input q tier engagement) e) w w₀
              w' h k)
      | inr k ↦ rw (consistent, k) (without _ refl (inr refl) refl refl refl refl)
    ]
    | inr inconsistent ↦ rw inconsistent (without _ refl (inl refl) refl refl refl refl)
  ]

  with_context-IsResult :
      (names : List String) (tier : Option String) (w : W) (o : Option F)
      → IsResult (with_context tools config q names tier w o).1
  unfolding with_context requested evaluation_request
  with_context-IsResult names tier w none = without _ refl (inl refl) refl refl refl refl
  with_context-IsResult names tier w (some engagement) =
      elim (Bool-cases (fits q.customer_id && fits q.segment)) [
        | inl fit ↦ rw fit (judged-IsResult names tier engagement _ w _ _ refl)
        | inr unfit ↦ rw unfit (rejected refl unfit)
      ]

  with_loyalty-IsResult :
      (names : List String) (w : W) (o : Option (Option String))
      → IsResult (with_loyalty tools config q names w o).1
  unfolding with_loyalty
  with_loyalty-IsResult names w none = without _ refl (inl refl) refl refl refl refl
  with_loyalty-IsResult names w (some tier) = with_context-IsResult names tier _ _

  with_tools-IsResult :
      (w : W) (o : Option (List String)) → IsResult (with_tools tools config q w o).1
  unfolding with_tools
  with_tools-IsResult w none = without _ refl (inl refl) refl refl refl refl
  with_tools-IsResult w (some names) =
      elim (Bool-cases (all (λ tool. contains tool names) required_tools)) [
        | inl complete ↦ rw complete (with_loyalty-IsResult names _ _)
        | inr missing ↦ rw missing (without _ refl (inl refl) refl refl refl refl)
      ]

  -- Whatever the tools and the language model do, the upsell agent raises nothing but the rejection of a
  -- customer id or a segment that has no character or more than 128. An offer is shown only if the
  -- policy's tool, asked about this customer and trigger, called the customer eligible for it, and has a
  -- message only if that is not empty and has none of the prohibited terms. Without an offer there is no
  -- message, and the result says that no model was invoked.
  pub execute-IsResult : (w : W) → IsResult (execute tools config q w).1
  unfolding execute
  execute-IsResult w = with_tools-IsResult (tools.discover_tools w).0 (tools.discover_tools w).1

  -- If the customer's id and segment have 1 to 128 characters, the offer that the selector selects for
  -- what the tools answer is shown, whatever the product tool, the language model and the tool that
  -- records the event do.
  pub execute-offers :
      (w w₁ w₂ w₃ w₄ : W) (names : List String) (tier : Option String) (engagement : F)
      (e : EligibilityResult) (offer : OfferType)
      → (fits q.customer_id && fits q.segment) ≡ true
      → tools.discover_tools w ≡ (w₁, some names)
      → all (λ tool. contains tool names) required_tools ≡ true
      → tools.get_loyalty_profile q.customer_id w₁ ≡ (w₂, some tier)
      → tools.get_engagement_summary q.customer_id w₂ ≡ (w₃, some engagement)
      → tools.evaluate_upsell (request_of q) w₃ ≡ (w₄, some e)
      → is_consistent e ≡ true
      → e.eligible ≡ true
      → select_offer q.trigger_type
          (score_result config (scoring_input q tier engagement) e).band
          q.segment
          e.eligible_offers
        ≡ ok (some offer)
      → IsOffered offer (execute tools config q w).1
  unfolding execute with_tools with_loyalty with_context requested evaluation_request judged
      calculate scored selected show
  execute-offers w w₁ w₂ w₃ w₄ names tier engagement e offer fit h₁ h h₂ h₃ h₄ c k s =
      rw (h₁, h, h₂, h₃, fit, h₄, c, k, s) (_, refl, refl, refl, refl)
