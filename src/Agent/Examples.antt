-- ===== src/Agent/Examples.antt =====
-- Tests of the upsell agent, and its theorem at a request that ends with an offer and a message.
use neutail.Base.{
  ℕ, ◌+◌, String, ◌≡◌, refl, true, Option, none, some, List, [], ◌∷◌, nat_eq, string_eq, pair_eq,
  Outcome, ok,
}
use neutail.Base.Samples.{ascii, micro_real}
use neutail.Base.Text.{codes, strip, casefold, has_infix, starts_with, blank_out}
use neutail.Upsell.Schema.{
  style_plus_trial, OfferType, EligibilityResult, styling_advisory, high_product_engagement,
}
use neutail.Upsell.Scorer.{ScoringConfig, score_result}
use neutail.Upsell.Selector.{select_offer, choose, preferred, first_allowed}
use neutail.Agent.{execute, safe_message}
use neutail.Agent.Schema.{request_of, Tools, UpsellRequest, UpsellResult, Error, scoring_input}
use neutail.Agent.Offered.{IsResult, execute-IsResult, IsOffered, execute-offers}
use neutail.Upsell.Schema.{CustomerRow, Session, EligibilityResult, same_offer}
use neutail.Upsell.Selector.{is_allowed}
use neutail.Upsell.Permit.{IsPermitted}
use neutail.Upsell.Choice.{select-allowed}
use neutail.Upsell
use neutail.Upsell.Examples.{config, evaluates}
use neutail.Base.Lists.{any}
use neutail.Agent.Permitted.{with_policy, execute-IsPermitted}
use neutail.Agent.Schema.{request_of}

abbrev scoring : ScoringConfig ℕ
scoring = record {
  trigger_weight = 350_000;
  premium_affinity_weight = 250_000;
  engagement_weight = 200_000;
  loyalty_weight = 100_000;
  segment_affinity_weight = 100_000;
  medium_band_min = 450_000;
  high_band_min = 700_000;
  loyalty_scores = ("gold", 700_000) ∷ [];
  segment_scores = ("value defender", 900_000) ∷ [];
}

abbrev request : UpsellRequest ℕ
request = record {
  customer_id = "C1";
  session_id = "S1";
  segment = "Value Defender";
  premium_affinity = some 800_000;
  trigger_type = high_product_engagement;
  strength = some 900_000;
  selected_sku = some "K1";
}

abbrev allowed : EligibilityResult
allowed = record {
  eligible = true;
  eligible_offers = styling_advisory ∷ [];
  eligibility_reasons = [];
  suppression_reasons = [];
  cooldown_until = none;
}

-- The world counts the calls. The model words the offer as it is given, and events cannot be recorded.
abbrev tools : List String → Option (List ℕ) → Tools ℕ ℕ String
tools names response = record {
  discover_tools = λ w. (w + 1, some names);
  get_loyalty_profile = λ c w. (w + 1, some (some "GOLD"));
  get_engagement_summary = λ c w. (w + 1, some 750_000);
  evaluate_upsell = λ e w. (w + 1, some allowed);
  get_product_details = λ sku w. (w + 1, some sku);
  record_upsell_event = λ e w. (w + 1, none);
  invoke = λ o reasons p w. (w + 1, some response);
}

abbrev all_tools : List String
all_tools =
    "record_upsell_event" ∷ "evaluate_upsell" ∷ "get_engagement_summary" ∷ "get_loyalty_profile"
    ∷ "get_customer_profile" ∷ []

abbrev outcome : List String → Option (List ℕ) → ℕ × Outcome Error (UpsellResult ℕ)
outcome names response = execute (tools names response) scoring request 0

prohibited_is_dropped : safe_message (some (codes "Subscribe today")) ≡ none
unfolding safe_message strip has_infix casefold starts_with
prohibited_is_dropped = refl

stripped_is_kept : safe_message (some (codes " Ask a stylist ")) ≡ some (codes "Ask a stylist")
unfolding safe_message strip has_infix casefold starts_with
stripped_is_kept = refl

execute-IsResult_example :
    IsResult
      (tools all_tools (some (codes "Ask a stylist")))
      scoring
      request
      (outcome all_tools (some (codes "Ask a stylist"))).1
execute-IsResult_example =
    execute-IsResult (tools all_tools (some (codes "Ask a stylist"))) scoring request 0

selects :
    select_offer high_product_engagement
      (score_result scoring (scoring_input request (some "GOLD") 750_000) allowed).band
      "Value Defender"
      (styling_advisory ∷ [])
    ≡ ok (some styling_advisory)
unfolding select_offer choose preferred first_allowed blank_out casefold
selects = refl

execute-offers_example : IsOffered styling_advisory (outcome all_tools none).1
execute-offers_example =
    execute-offers (tools all_tools none) scoring request 0 1 2 3 4 all_tools (some "GOLD") 750_000
      allowed styling_advisory refl refl refl refl refl refl refl refl selects

-- The tables of the policy's tests, at the same moment.
abbrev read : ℕ → Session ℕ × ℕ
read w = (Upsell.Examples.session [], 86_500_000_000_000)

abbrev asked : UpsellRequest ℕ
asked = record request { segment = "prestige_champion"; strength = some 800_000 }

abbrev governed_tools : Tools ℕ ℕ String
governed_tools = with_policy config read (tools all_tools none)

selects_permitted :
    (o : OfferType) × (select_offer high_product_engagement
        (score_result scoring
          (scoring_input asked (some "GOLD") 750_000)
          Upsell.Examples.allowed).band
        "prestige_champion"
        (styling_advisory ∷ style_plus_trial ∷ [])
      ≡ ok (some o))
    × (any (same_offer o) (styling_advisory ∷ style_plus_trial ∷ []) ≡ true)
selects_permitted =
    select-allowed config (Upsell.Examples.session []) 86_500_000_000_000 Upsell.Examples.request
      Upsell.Examples.allowed high_product_engagement
      (score_result scoring (scoring_input asked (some "GOLD") 750_000)
        Upsell.Examples.allowed).band
      "prestige_champion" evaluates refl

shown : IsOffered selects_permitted.0 (execute governed_tools scoring asked 0).1
shown =
    execute-offers governed_tools scoring asked 0 1 2 3 3 all_tools (some "GOLD") 750_000
      Upsell.Examples.allowed selects_permitted.0 refl refl refl refl refl (rw evaluates refl) refl
      refl selects_permitted.1

execute-IsPermitted_example :
    (w' : ℕ) × (e : EligibilityResult) × (offer : OfferType) × (c : CustomerRow ℕ) × (s : _)
    × (t : _) × (shown.0.offer ≡ some offer)
    × (is_allowed e.eligible_offers offer ≡ true)
    × IsPermitted config (read w').0 (read w').1 (request_of asked) c s t e.eligible_offers
execute-IsPermitted_example =
    execute-IsPermitted config read (tools all_tools none) scoring asked 0 shown.0 shown.1 shown.3
