-- ===== src/Agent.antt =====
-- agents/upsell/agent.py: how the upsell agent composes the policy's tool, the scorer, the selector and the
-- wording by a language model. The tools and the gateway act on the rest of the world; each is `none` where it
-- raises, or where its payload is not of the DTO.
mod Examples
pub mod Allowed
pub mod Offered
pub mod Permitted
pub mod Schema
use neutail.Base.{
  ℕ, ◌+◌, ◌%◌, String, true, not, Option, none, some, List, [], ◌∷◌, ◌++◌, if◌then◌else◌, is_some,
  ◌==◌, nat_eq, string_eq, pair_eq, Outcome, ok, raised,
}
use neutail.Base.Lists.{any, all, contains}
use neutail.Base.Real.{Real, zero_real}
use neutail.Base.Text.{Unicode, codes, codes_eq, strip, casefold, has_infix}
use neutail.Upsell.Schema.{OfferType, EligibilityResult, trigger_text, EvaluationRequest}
use neutail.Upsell.Scorer.{ScoringConfig, OpportunityScore, ScoringError, calculate}
use neutail.Upsell.Selector.{SelectorError, select_offer}
use neutail.Agent.Schema.{
  UpsellRequest, Tools, offer_available, UpsellResult, Error, scoring, selecting, failure,
  no_offer_result, evaluation_request, scoring_input, is_consistent,
}

abbrev pub required_tools : List String
required_tools =
    "get_customer_profile" ∷ "get_loyalty_profile" ∷ "get_engagement_summary" ∷ "evaluate_upsell"
    ∷ "record_upsell_event" ∷ []

abbrev pub prohibited : List (List ℕ)
prohibited =
    codes "enroll"
    ∷ codes "subscribe"
    ∷ codes "subscription"
    ∷ codes "discount"
    ∷ codes "% off"
    ∷ []

-- `_safe_message`; a response that is no text is `none`
pub safe_message : ⦃u : Unicode⦄ → Option (List ℕ) → Option (List ℕ)
safe_message none = none
safe_message (some response) =
    if strip response == []
    then none
    else if any (λ term. has_infix term (casefold (strip response))) prohibited
    then none
    else some (strip response)

module _ {W F P : Type 0} ⦃u : Unicode⦄ ⦃r : Real F⦄ (tools : Tools W F P)
    (config : ScoringConfig F) where
  -- `_get_safe_product_context`
  product_context : UpsellRequest F → List String → W → W × Option P
  product_context q names w = elim q.selected_sku [
    | none ↦ (w, none)
    | some sku ↦
        if sku == ""
        then (w, none)
        else if contains "get_product_details" names
        then tools.get_product_details sku w
        else (w, none)
  ]

  worded : Option (Option (List ℕ)) → Option (List ℕ)
  unfolding safe_message
  worded none = none
  worded (some response) = safe_message response

  -- `_generate_message`
  generate_message : OfferType → List String → Option P → W → W × Option (List ℕ)
  unfolding worded
  generate_message offer reasons product w =
      let (w', response) = tools.invoke offer reasons product w in (w', worded response)

  -- From the offer that was selected to the result.
  show :
      UpsellRequest F
      → List String
      → EligibilityResult
      → OpportunityScore F
      → OfferType
      → W
      → W × UpsellResult F
  unfolding product_context generate_message
  show q names eligibility opportunity offer w =
      let (w₁, product) = product_context q names w in
      let (w₂, message) = generate_message offer opportunity.reason_codes product w₁ in
      let (w₃, event) =
        tools.record_upsell_event
          (record {
            customer_id = q.customer_id;
            session_id = q.session_id;
            offer_type = offer;
            event_type = "OFFER_SHOWN";
            trigger_type = trigger_text q.trigger_type;
          })
          w₂ in
      (
        w₃,
        record {
          status = offer_available;
          should_offer = true;
          offer = some offer;
          opportunity_score = some opportunity.score;
          opportunity_band = some opportunity.band;
          eligibility_reasons =
              opportunity.reason_codes
              ++ (if is_some event then [] else "EVENT_RECORDING_FAILED" ∷ []);
          suppression_reasons = eligibility.suppression_reasons;
          message = message;
          llm_invoked = true;
        },
      )

  -- From what the selector returned.
  selected :
      UpsellRequest F
      → List String
      → EligibilityResult
      → OpportunityScore F
      → W
      → Outcome SelectorError (Option OfferType)
      → W × Outcome Error (UpsellResult F)
  unfolding show
  selected q names eligibility opportunity w (raised e) = (w, raised (selecting e))
  selected q names eligibility opportunity w (ok none) =
      (w, ok (no_offer_result [] ("NO_APPROPRIATE_OFFER" ∷ [])))
  selected q names eligibility opportunity w (ok (some offer)) =
      let (w', result) = show q names eligibility opportunity offer w in (w', ok result)

  scored :
      UpsellRequest F
      → List String
      → EligibilityResult
      → W
      → Outcome ScoringError (OpportunityScore F)
      → W × Outcome Error (UpsellResult F)
  unfolding selected
  scored q names eligibility w (raised e) = (w, raised (scoring e))
  scored q names eligibility w (ok opportunity) =
      selected q names eligibility opportunity w
        (select_offer q.trigger_type opportunity.band q.segment eligibility.eligible_offers)

  judged :
      UpsellRequest F
      → List String
      → Option String
      → F
      → W
      → Option EligibilityResult
      → W × Outcome Error (UpsellResult F)
  unfolding scored calculate
  judged q names tier engagement w none = (w, ok (failure "SERVICE_NOT_AVAILABLE"))
  judged q names tier engagement w (some e) =
      if not (is_consistent e)
      then (w, ok (failure "SERVICE_NOT_AVAILABLE"))
      else if not e.eligible
      then (w, ok (no_offer_result e.eligibility_reasons e.suppression_reasons))
      else scored q names e w (calculate config (scoring_input q tier engagement) e)

  -- From the policy's request, which raises outside the `try` block.
  requested :
      UpsellRequest F
      → List String
      → Option String
      → F
      → W
      → Outcome Error (EvaluationRequest F)
      → W × Outcome Error (UpsellResult F)
  unfolding judged
  requested q names tier engagement w (raised e) = (w, raised e)
  requested q names tier engagement w (ok request) =
      let (w', e) = tools.evaluate_upsell request w in judged q names tier engagement w' e

  with_context :
      UpsellRequest F
      → List String
      → Option String
      → W
      → Option F
      → W × Outcome Error (UpsellResult F)
  unfolding requested
  with_context q names tier w none = (w, ok (failure "CUSTOMER_CONTEXT_INCOMPLETE"))
  with_context q names tier w (some engagement) =
      requested q names tier engagement w (evaluation_request q)

  with_loyalty :
      UpsellRequest F
      → List String
      → W
      → Option (Option String)
      → W × Outcome Error (UpsellResult F)
  unfolding with_context
  with_loyalty q names w none = (w, ok (failure "CUSTOMER_CONTEXT_INCOMPLETE"))
  with_loyalty q names w (some tier) =
      let (w', engagement) = tools.get_engagement_summary q.customer_id w in
      with_context q names tier w' engagement

  -- `_verify_tool_scope`
  with_tools : UpsellRequest F → W → Option (List String) → W × Outcome Error (UpsellResult F)
  unfolding with_loyalty
  with_tools q w none = (w, ok (failure "CUSTOMER_CONTEXT_INCOMPLETE"))
  with_tools q w (some names) =
      if all (λ tool. contains tool names) required_tools
      then (let (w', tier) = tools.get_loyalty_profile q.customer_id w in
          with_loyalty q names w' tier)
      else (w, ok (failure "CUSTOMER_CONTEXT_INCOMPLETE"))

  -- `execute`, for a valid request
  pub execute : UpsellRequest F → W → W × Outcome Error (UpsellResult F)
  unfolding with_tools
  execute q w = let (w', names) = tools.discover_tools w in with_tools q w' names
