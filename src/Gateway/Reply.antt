-- ===== src/Gateway/Reply.antt =====
-- What the gateway takes from a provider's response: its content, its usage and its structured value
-- (`_response_content`, `_response_usage`, `_response_parsed` and `_parse_structured` of
-- llm_gateway/gateway.py).
use neutail.Base.{
  ℕ, ◌+◌, Bool, false, ◌&&◌, ◌||◌, Option, none, some, List, [], ◌∷◌, ◌++◌, leb, if◌then◌else◌,
  or_default, ◌==◌, nat_eq, string_eq, pair_eq, Outcome, ok, raised, ◌>>=◌, or_raise,
}
use neutail.Base.Text.{Unicode, codes, codes_eq, starts_with, strip}
use neutail.Gateway.Schema.{
  TokenUsage, Content, Choice, Response, Exception, Result, nothing, parts, unreadable, other,
  plain, structured,
}

-- The line breaks of `splitlines`.
abbrev is_line_break : ℕ → Bool
is_line_break c =
    (leb 10 c && leb c 13) || (leb 28 c && leb c 30) || c == 133 || c == 8232 || c == 8233

-- The lines behind `line`. The line feed of "\r\n" is no line of its own.
lines_from : Bool → List ℕ → List ℕ → List (List ℕ)
lines_from after line [] = if line == [] then [] else line ∷ []
lines_from after line (c ∷ s) =
    let skipped = lines_from false line s in
    let next = lines_from (c == 13) [] s in
    let longer = lines_from false (line ++ c ∷ []) s in
    if after && (c == 10) then skipped else if is_line_break c then line ∷ next else longer

-- `value.splitlines()`
unfoldable pub splitlines : List ℕ → List (List ℕ)
unfolding lines_from
splitlines = lines_from false []

-- `"\n".join(lines)`
unfoldable pub join_lines : List (List ℕ) → List ℕ
join_lines [] = []
join_lines (l ∷ []) = l
join_lines (l ∷ k ∷ rest) = l ++ 10 ∷ join_lines (k ∷ rest)

abbrev pub fence : List ℕ
fence = codes "```"

-- `if lines and lines[0].startswith("```")`
abbrev without_head : List (List ℕ) → List (List ℕ)
without_head [] = []
without_head (l ∷ rest) = if starts_with fence l then rest else l ∷ rest

module _ ⦃u : Unicode⦄ where
  -- `if lines and lines[-1].strip() == "```"`
  without_last : List (List ℕ) → List (List ℕ)
  without_last [] = []
  without_last (l ∷ []) = if strip l == fence then [] else l ∷ []
  without_last (l ∷ k ∷ rest) = l ∷ without_last (k ∷ rest)

  -- The text that `_parse_structured` validates.
  unfoldable pub unfenced : List ℕ → List ℕ
  unfolding without_last
  unfenced content =
      let normalized = strip content in
      if starts_with fence normalized
      then strip (join_lines (without_last (without_head (splitlines normalized))))
      else normalized

  -- `"".join(parts)`
  joined_parts : List (Option (List ℕ)) → List ℕ
  joined_parts [] = []
  joined_parts (none ∷ rest) = joined_parts rest
  joined_parts (some t ∷ rest) = t ++ joined_parts rest

  abbrev gateway_error : Exception
  gateway_error = other (codes "LLMGatewayError")

  abbrev nonempty : List ℕ → Outcome Exception (List ℕ)
  nonempty t = if t == [] then raised gateway_error else ok t

  content_text : Content → Outcome Exception (List ℕ)
  unfolding joined_parts
  content_text (Content.text t) = nonempty (strip t)
  content_text (parts ps) = nonempty (strip (joined_parts ps))
  content_text nothing = raised gateway_error

  response_content : {P : Type 0} → List (Choice P) → Outcome Exception (List ℕ)
  unfolding content_text
  response_content [] = raised gateway_error
  response_content (c ∷ rest) = content_text c.content

  abbrev response_parsed : {P : Type 0} → List (Choice P) → Option P
  response_parsed [] = none
  response_parsed (c ∷ rest) = c.parsed

  -- The result of a response. A response model is given by its `model_validate_json`, which raises
  -- `ValidationError` where it is `none`.
  unfoldable pub result_of :
      {P : Type 0} → Option (List ℕ → Option P) → Response P → Outcome Exception (Result P)
  unfolding response_content
  result_of none r = response_content r.choices >>= λ t. ok (plain t)
  result_of (some validate) r = elim (response_parsed r.choices) [
    | some p ↦ ok (structured p)
    | none ↦ (do
      t ← response_content r.choices
      p ← or_raise (validate (unfenced t)) unreadable
      ok (structured p))
  ]

-- `int(_value(usage, first, _value(usage, second, 0)) or 0)`
abbrev token_count : Option (Option ℕ) → Option (Option ℕ) → ℕ
token_count none none = 0
token_count none (some second) = or_default 0 second
token_count (some first) second = or_default 0 first

-- `_response_usage`, with the total of `TokenUsage.calculate_total`
unfoldable pub response_usage : {P : Type 0} → Response P → TokenUsage
response_usage r =
    let input = token_count r.prompt_tokens r.input_tokens in
    let output = token_count r.completion_tokens r.output_tokens in
    let total = token_count r.total_tokens none in
    record {
      input_tokens = input;
      output_tokens = output;
      total_tokens = if total == 0 then input + output else total;
    }
