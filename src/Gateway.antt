-- ===== src/Gateway.antt =====
-- llm_gateway/gateway.py and llm_gateway/router.py: the route of a use case, one attempt at a model, and the loop over
-- the primary and the fallback model. The completion is LiteLLM's, a parameter that acts on the rest of
-- the world.
pub mod Schema
pub mod Reply
pub mod Tried
pub mod Governed
mod Examples
use neutail.Gateway.Reply.{response_usage, result_of}
use neutail.Base.Table.{get, Table}
use neutail.Base.Text.{strip, Unicode, codes}
use neutail.Base.{
  ℕ, zero, suc, ◌+◌, ◌-◌, ◌*◌, ◌/◌, ◌%◌, ◌≤◌, ◌<◌, String, ◌≡◌, refl, sym, ap, ◌∙◌, ◌≢◌, ◌↔◌, ◌⊎◌,
  inl, inr, Bool, true, false, not, ◌&&◌, ◌||◌, Option, none, some, List, [], ◌∷◌, ◌++◌, map, arith,
  ltb, leb, nat_beq, if◌then◌else◌, leb→le, le→leb, Bool-cases, Option-cases, is_some, or_default,
  Eq, ◌==◌, nat_eq, string_eq, pair_eq, beq_self, Outcome, ok, raised, ◌>>=◌, ◌>>◌, require,
  or_raise,
}
use neutail.Base.Text.{Unicode, codes, codes_eq, strip}
use neutail.Gateway.Schema.{
  CompletionOptions, GatewayPolicy, ModelRoute, CallStatus, TokenUsage, CallRecord, Response,
  Exception, Result, Request, unreadable, other, success, fallback_success, failed, invalid_output,
}

-- `UnknownUseCaseError`, and `LLMInvocationError` with the records of the attempts
pub data Error : Type 0 where
  unknown_use_case : Error
  invocation_failed : List ℕ → List CallRecord → Error

-- `resolve`
pub resolve : ⦃u : Unicode⦄ → List ℕ → Table (List ℕ) ModelRoute → Outcome Error ModelRoute
resolve use_case routes = or_raise (get (strip use_case) routes) unknown_use_case

prefix : List ℕ → Option (List ℕ)
prefix [] = none
prefix (c ∷ s) = elim (prefix s) [
  | none ↦ if c == b'/' then some [] else none
  | some p ↦ if c == b'/' then some [] else some (c ∷ p)
]

-- `model.split("/", 1)[0] if "/" in model else "unknown"`
provider_from_model : List ℕ → List ℕ
unfolding prefix
provider_from_model model = or_default (codes "unknown") (prefix model)

-- Who calls, for what: the arguments of `_attempt` that all attempts share.
pub record Call (M P : Type 0) : Type 0 where
  pub route : ModelRoute
  pub messages : M
  pub response_model : Option (List ℕ → Option P)
  pub agent_name : List ℕ
  pub trace_id : List ℕ
  pub session_id : Option (List ℕ)

-- The rest of the world, and the telemetry's records.
pub record State (W : Type 0) : Type 0 where
  pub world : W
  pub records : List CallRecord

abbrev pub Completion : Type 0 → Type 0 → Type 0 → Type 0
Completion W M P = Request M → W → W × Outcome Exception (Response P)

-- A candidate: the model, its options, and whether it is the fallback.
pub record Candidate : Type 0 where
  pub model : List ℕ
  pub options : CompletionOptions
  pub is_fallback : Bool

-- `if route.policy.allow_fallback and route.fallback_model`
abbrev pub candidates : ModelRoute → List Candidate
candidates route =
    let primary : Candidate = record {
      model = route.primary_model;
      options = route.primary_options;
      is_fallback = false;
    } in
    if route.policy.allow_fallback
    then elim route.fallback_model [
      | none ↦ primary ∷ []
      | some m ↦
          if m == []
          then primary ∷ []
          else primary
            ∷ record { model = m; options = route.fallback_options; is_fallback = true }
            ∷ []
    ]
    else primary ∷ []

-- What an inner loop ends with: a result, or no result; the state, the number of the last attempt and the records so far.
pub record Progress (W P : Type 0) : Type 0 where
  pub state : State W
  pub number : ℕ
  pub records : List CallRecord
  pub result : Option (Result P)

module _ {P : Type 0} where
  abbrev pub status_of : Candidate → Outcome Exception (Result P) → CallStatus
  status_of candidate (ok r) = if candidate.is_fallback then fallback_success else success
  status_of candidate (raised unreadable) = invalid_output
  status_of candidate (raised (other name)) = failed

  abbrev error_type_of : Outcome Exception (Result P) → Option (List ℕ)
  error_type_of (ok r) = none
  error_type_of (raised unreadable) = some (codes "StructuredOutputError")
  error_type_of (raised (other name)) = some name

module _ {M P : Type 0} where
  abbrev pub request : Call M P → Candidate → Request M
  request call candidate = record {
    model = candidate.model;
    messages = call.messages;
    temperature = call.route.policy.temperature;
    max_tokens = call.route.policy.max_tokens;
    timeout = call.route.policy.timeout;
    options = candidate.options;
    is_structured = is_some call.response_model;
  }

  -- The result of a completion with its usage, which is known once there is a response.
  outcome_of :
      ⦃u : Unicode⦄
      → Call M P
      → Outcome Exception (Response P)
      → TokenUsage × Outcome Exception (Result P)
  unfolding result_of response_usage
  outcome_of call (raised e) =
      (record { input_tokens = 0; output_tokens = 0; total_tokens = 0 }, raised e)
  outcome_of call (ok r) = (response_usage r, result_of call.response_model r)

  abbrev pub record_of :
      Call M P → Candidate → ℕ → TokenUsage → Outcome Exception (Result P) → CallRecord
  unfolding provider_from_model
  record_of call candidate number usage outcome = record {
    trace_id = call.trace_id;
    session_id = call.session_id;
    agent_name = call.agent_name;
    use_case = call.route.use_case;
    logical_model = call.route.logical_model;
    provider = provider_from_model candidate.model;
    provider_model = candidate.model;
    attempt = number;
    usage = usage;
    status = status_of candidate outcome;
    error_type = error_type_of outcome;
  }

  abbrev pub structured_attempts : Call M P → ℕ
  structured_attempts call =
      1 + (if is_some call.response_model then call.route.policy.structured_output_retries else 0)

module _ {W P : Type 0} where
  -- `return result`, the next turn, or `break`
  next_attempt :
      State W → ℕ → List CallRecord → Outcome Exception (Result P) → Progress W P → Progress W P
  next_attempt s number records (ok result) rest = record {
    state = s;
    number = number;
    records = records;
    result = some result;
  }
  next_attempt s number records (raised unreadable) rest = rest
  next_attempt s number records (raised (other name)) rest = record {
    state = s;
    number = number;
    records = records;
    result = none;
  }

  -- `return result`, or the next candidate
  returned :
      Progress W P
      → Option (Result P)
      → State W × Outcome Error (Result P)
      → State W × Outcome Error (Result P)
  returned p none rest = rest
  returned p (some result) rest = (p.state, ok result)

module _ {W M P : Type 0} ⦃u : Unicode⦄ where
  -- `_attempt`
  pub attempt :
      Completion W M P
      → Call M P
      → Candidate
      → ℕ
      → State W
      → State W × CallRecord × Outcome Exception (Result P)
  unfolding outcome_of
  attempt complete call candidate number s =
      let (w, answer) = complete (request call candidate) s.world in
      let (usage, outcome) = outcome_of call answer in
      let r = record_of call candidate number usage outcome in
      (record { world = w; records = s.records ++ r ∷ [] }, r, outcome)

  -- The inner loop over the attempts that are `left` for a candidate.
  pub try_model :
      Completion W M P → Call M P → Candidate → ℕ → ℕ → List CallRecord → State W → Progress W P
  unfolding attempt next_attempt
  try_model complete call candidate zero number records s = record {
    state = s;
    number = number;
    records = records;
    result = none;
  }
  try_model complete call candidate (suc left) number records s =
      let (s', r, outcome) = attempt complete call candidate (number + 1) s in
      next_attempt s' (number + 1) (records ++ r ∷ []) outcome
        (try_model complete call candidate left (number + 1) (records ++ r ∷ []) s')

  -- The loop over the candidates.
  pub try_candidates :
      Completion W M P
      → Call M P
      → List Candidate
      → ℕ
      → List CallRecord
      → State W
      → State W × Outcome Error (Result P)
  unfolding returned
  try_candidates complete call [] number records s =
      (s, raised (invocation_failed call.route.use_case records))
  try_candidates complete call (c ∷ rest) number records s =
      let p = try_model complete call c (structured_attempts call) number records s in
      returned p p.result (try_candidates complete call rest p.number p.records p.state)

  -- `invoke`, from the first attempt on
  pub invoke_models : Completion W M P → Call M P → State W → State W × Outcome Error (Result P)
  unfolding try_candidates
  invoke_models complete call s = try_candidates complete call (candidates call.route) 0 [] s
