-- ===== src/Gateway/Schema.antt =====
-- The records of llm_gateway/models.py and llm_gateway/policies.py, and what the gateway reads of a
-- provider's response. Texts are lists of code points.
use neutail.Base.{ℕ, Bool, Option, List, nat_eq, string_eq, pair_eq}

-- `CompletionOptions`
pub record CompletionOptions : Type 0 where
  pub reasoning_effort : Option (List ℕ)
  pub clear_thinking : Option Bool

-- `GatewayPolicy`, less the logging of bodies. The temperature is in hundredths, the timeout in
-- microseconds.
pub record GatewayPolicy : Type 0 where
  pub max_tokens : ℕ
  pub temperature : ℕ
  pub timeout : ℕ
  pub allow_fallback : Bool
  pub structured_output_retries : ℕ

pub record ModelRoute : Type 0 where
  pub use_case : List ℕ
  pub logical_model : List ℕ
  pub primary_model : List ℕ
  pub fallback_model : Option (List ℕ)
  pub policy : GatewayPolicy
  pub primary_options : CompletionOptions
  pub fallback_options : CompletionOptions

-- `LLMCallStatus`
pub data CallStatus : Type 0 where
  success fallback_success failed invalid_output : CallStatus

pub record TokenUsage : Type 0 where
  pub input_tokens : ℕ
  pub output_tokens : ℕ
  pub total_tokens : ℕ

-- `LLMCallRecord`, less the prompt's name and version and the measured latency and cost.
pub record CallRecord : Type 0 where
  pub trace_id : List ℕ
  pub session_id : Option (List ℕ)
  pub agent_name : List ℕ
  pub use_case : List ℕ
  pub logical_model : List ℕ
  pub provider : List ℕ
  pub provider_model : List ℕ
  pub attempt : ℕ
  pub usage : TokenUsage
  pub status : CallStatus
  pub error_type : Option (List ℕ)

-- `message.content`: a text, a list of parts that may have a text, or something else.
pub data Content : Type 0 where
  text : List ℕ → Content
  parts : List (Option (List ℕ)) → Content
  nothing : Content

-- A choice with `message.parsed`, if that is of the response model.
pub record Choice (P : Type 0) : Type 0 where
  pub content : Content
  pub parsed : Option P

-- A response. A count of its usage may be missing or null.
pub record Response (P : Type 0) : Type 0 where
  pub choices : List (Choice P)
  pub prompt_tokens : Option (Option ℕ)
  pub input_tokens : Option (Option ℕ)
  pub completion_tokens : Option (Option ℕ)
  pub output_tokens : Option (Option ℕ)
  pub total_tokens : Option (Option ℕ)

-- What an attempt may raise: `ValidationError`, `JSONDecodeError` or `StructuredOutputError`, or
-- an exception with another class name.
pub data Exception : Type 0 where
  unreadable : Exception
  other : List ℕ → Exception

-- What `invoke` returns: the model's text, or a value of the response model.
pub data Result (P : Type 0) : Type 0 where
  plain : List ℕ → Result P
  structured : P → Result P

-- The arguments of a completion. The messages are of a type `M`.
pub record Request (M : Type 0) : Type 0 where
  pub model : List ℕ
  pub messages : M
  pub temperature : ℕ
  pub max_tokens : ℕ
  pub timeout : ℕ
  pub options : CompletionOptions
  pub is_structured : Bool
