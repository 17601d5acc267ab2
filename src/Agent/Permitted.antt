-- ===== src/Agent/Permitted.antt =====
-- The upsell agent with the policy service behind its tool (`evaluate_upsell` of tools/upsell_tools.py and of
-- services/upsell_policy_service.py).
use neutail.Commerce.Segments.{Segment}
use neutail.Base.{
  ok-injective, ℕ, ◌≡◌, sym, ap, ◌∙◌, true, Option, none, some, nat_eq, string_eq, pair_eq, Outcome,
  ok, raised,
}
use neutail.Base.Real.{Real}
use neutail.Base.Text.{Unicode}
use neutail.Upsell.{evaluate_eligibility}
use neutail.Upsell.Schema.{
  OfferType, TriggerType, PolicyConfig, PolicyError, Session, CustomerRow, EligibilityResult,
}
use neutail.Upsell.Permit.{IsPermitted, evaluate-IsPermitted}
use neutail.Upsell.Scorer.{ScoringConfig}
use neutail.Upsell.Selector.{is_allowed}
use neutail.Agent.{execute}
use neutail.Agent.Schema.{Tools, UpsellRequest, UpsellResult, request_of}
use neutail.Agent.Offered.{rejected, without, offered, execute-IsResult}
use mathlib.Core.Bool.{false≢true}

abbrev pub payload : {A : Type 0} → Outcome PolicyError A → Option A
payload (ok x) = some x
payload (raised _) = none

payload_inv : {A : Type 0} → (o : Outcome PolicyError A) (x : A) → payload o ≡ some x → o ≡ ok x
payload_inv (ok y) x h = cc
payload_inv (raised e) x h = cc

module _ {W F P : Type 0} ⦃u : Unicode⦄ ⦃r : Real F⦄ where
  -- The tool asks the policy service, on the tables and at the moment that it reads.
  abbrev pub with_policy : PolicyConfig F → (W → Session F × ℕ) → Tools W F P → Tools W F P
  with_policy policy read tools = record tools {
    evaluate_upsell =
        λ request w. (w, payload (evaluate_eligibility policy (read w).0 (read w).1 request));
  }

  -- If the policy service is behind the agent's tool, the agent shows an offer only to a customer whom
  -- every rule of the policy lets through, on the tables and at the time that the tool reads, and the
  -- offer is one that the policy allows then.
  pub execute-IsPermitted :
      (policy : PolicyConfig F) (read : W → Session F × ℕ) (tools : Tools W F P)
      (config : ScoringConfig F) (q : UpsellRequest F) (w : W) (x : UpsellResult F)
      → (execute (with_policy policy read tools) config q w).1 ≡ ok x
      → x.should_offer ≡ true
      → (w' : W) × (e : EligibilityResult) × (offer : OfferType) × (customer : CustomerRow F)
        × (segment : Segment) × (t : TriggerType) × (x.offer ≡ some offer)
        × (is_allowed e.eligible_offers offer ≡ true)
        × IsPermitted policy
            (read w').0
            (read w').1
            (request_of q)
            customer
            segment
            t
            e.eligible_offers
  execute-IsPermitted policy read tools config q w x h s =
      elim (execute-IsResult (with_policy policy read tools) config q w) [
        | without y p _ k _ _ _ ↦
            absurd (
              false≢true
                (sym k ∙ ap (λ z. z.should_offer) (sym (ok-injective _ _ (sym h ∙ p))) ∙ s))
        | rejected p _ ↦ cc (h, p)
        | offered y w₀ w₁ e offer p a k c _ _ o _ ↦
            let same = ok-injective _ _ (sym h ∙ p) in
            let evaluates = payload_inv _ e (ap (λ z. z.1) a) in
            let (customer, segment, t, permitted) =
              evaluate-IsPermitted policy (read w₀).0 (read w₀).1 (request_of q) e evaluates k in
            (w₀, e, offer, customer, segment, t, ap (λ z. z.offer) same ∙ o, c, permitted)
      ]
