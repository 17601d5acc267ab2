-- ===== src/Gateway/Examples.antt =====
-- Tests of the gateway, and the theorems at a call whose primary model does not answer as asked.
use neutail.Base.{
  ℕ, ◌+◌, ◌≡◌, refl, ◌≢◌, true, Option, none, some, List, [], ◌∷◌, if◌then◌else◌, ◌==◌, nat_eq,
  string_eq, pair_eq, ok, raised,
}
use mathlib.Core.Bool.{false≢true}
use neutail.Base.Samples.{ascii}
use neutail.Base.Table.{get}
use neutail.Base.Text.{starts_with, codes, codes_eq, strip}
use neutail.Gateway.Schema.{
  CompletionOptions, Content, ModelRoute, Response, Result, structured, other,
}
use neutail.Gateway.Reply.{unfenced, splitlines, join_lines, result_of}
use neutail.Gateway.{
  Call, Completion, State, attempt, invoke_models, next_attempt, outcome_of, resolve, returned,
  try_candidates, try_model, request, unknown_use_case,
}
use neutail.Gateway.Governed.{IsGoverned, Answers, invoke_models-IsGoverned, invoke_models-returns}

abbrev no_options : CompletionOptions
no_options = record { reasoning_effort = none; clear_thinking = none }

abbrev route : ModelRoute
route = record {
  use_case = codes "intent_detection";
  logical_model = codes "fast";
  primary_model = codes "nim/large";
  fallback_model = some (codes "nim/small");
  policy = record {
    max_tokens = 180;
    temperature = 0;
    timeout = 120_000_000;
    allow_fallback = true;
    structured_output_retries = 1;
  };
  primary_options = no_options;
  fallback_options = no_options;
}

unfences : unfenced (codes " ```json\n{}\n``` ") ≡ codes "{}"
unfolding unfenced splitlines join_lines starts_with strip
unfences = refl

unknown_is_refused : resolve (codes "chat") [] ≡ raised unknown_use_case
unfolding resolve get
unknown_is_refused = refl

-- The response model reads a text as its first code point.
abbrev first_code : List ℕ → Option ℕ
first_code [] = none
first_code (c ∷ s) = some c

abbrev call : Call Unit ℕ
call = record {
  route = route;
  messages = tt;
  response_model = some first_code;
  agent_name = codes "orchestrator";
  trace_id = codes "t";
  session_id = none;
}

abbrev answer : Response ℕ
answer = record {
  choices = record { content = Content.text (codes " yes "); parsed = none } ∷ [];
  prompt_tokens = some (some 9);
  input_tokens = none;
  completion_tokens = none;
  output_tokens = some (some 1);
  total_tokens = some none;
}

-- The primary model is out of reach; the world counts the completions.
abbrev complete : Completion ℕ Unit ℕ
complete r n =
    if r.model == codes "nim/small"
    then (n + 1, ok answer)
    else (n + 1, raised (other (codes "Timeout")))

abbrev start : State ℕ
start = record { world = 0; records = [] }

-- Two attempts are made, one at each model.
falls_back : (invoke_models complete call start).0.world ≡ 2
unfolding invoke_models attempt next_attempt outcome_of returned try_candidates try_model result_of
    unfenced starts_with strip
falls_back = refl

has_answer :
    (w : ℕ)
    → (complete
        (request call
          (record { model = codes "nim/small"; options = no_options; is_fallback = true }))
        w).1
      ≡ ok answer
has_answer w = refl

reads_answer : result_of call.response_model answer ≡ ok (structured b'y')
unfolding result_of unfenced starts_with strip
reads_answer = refl

small_model :
    Answers complete call
      (record { model = codes "nim/small"; options = no_options; is_fallback = true })
small_model w = (answer, structured b'y', refl, reads_answer)

has_name : codes "nim/small" ≢ []
has_name h = false≢true ((codes_eq.beq_iff (codes "nim/small") []).1 h)

invoke_models-IsGoverned_example :
    let out = invoke_models complete call start in IsGoverned complete call start out.0 out.1
invoke_models-IsGoverned_example = invoke_models-IsGoverned complete call start

invoke_models-returns_example : (r : Result ℕ) × ((invoke_models complete call start).1 ≡ ok r)
invoke_models-returns_example =
    invoke_models-returns complete call start (codes "nim/small") refl refl has_name small_model
