-- ===== src/Gateway/Tried.antt =====
-- The attempts that the gateway's inner loop makes at one model, whatever it answers.
use neutail.Gateway.Reply.{result_of}
use neutail.Base.Text.{Unicode}
use neutail.Base.{
  ℕ, zero, suc, ◌+◌, ◌≤◌, ◌≡◌, refl, sym, ap, ◌∙◌, ◌⊎◌, inl, inr, Option, none, some, List, [], ◌∷◌,
  ◌++◌, arith, if◌then◌else◌, nat_eq, string_eq, pair_eq, Outcome, ok, raised,
}
use mathlib.Core.Option.{some-injective}
use mathlib.Core.List.{append-nil}
use neutail.Base.Lists.{All, length}
use neutail.Base.Text.{Unicode, codes_eq}
use neutail.Gateway.Schema.{
  Response, CallStatus, CallRecord, Exception, Result, TokenUsage, unreadable, other, success,
  fallback_success, failed, invalid_output,
}
use neutail.Gateway.{
  request, Call, Candidate, Completion, Progress, State, attempt, next_attempt, record_of,
  try_model, outcome_of,
}

abbrev pub IsFailure : CallRecord → Type 0
IsFailure r = (r.status ≡ failed) ⊎ (r.status ≡ invalid_output)

-- The attempts count on from `n`.
abbrev pub IsNumbered : ℕ → List CallRecord → Type 0
IsNumbered n [] = Unit
IsNumbered n (r ∷ rs) = (r.attempt ≡ n + 1) × IsNumbered (n + 1) rs

-- The last attempt has the status, and those before it failed; or, for no status, all failed.
abbrev pub IsEnded : Option CallStatus → List CallRecord → Type 0
IsEnded none rs = All IsFailure rs
IsEnded (some st) [] = ⊥
IsEnded (some st) (r ∷ []) = r.status ≡ st
IsEnded (some st) (r ∷ r' ∷ rs) = IsFailure r × IsEnded (some st) (r' ∷ rs)

unfoldable pub success_of : {P : Type 0} → Candidate → Option (Result P) → Option CallStatus
success_of c none = none
success_of c (some r) = some (if c.is_fallback then fallback_success else success)

-- The result is that of the model's response to the call, and the world is the one after it.
abbrev pub IsAnswer :
    {W M P : Type 0}
    → ⦃u : Unicode⦄ → Completion W M P
    → Call M P
    → Candidate
    → W
    → Result P
    → Type 0
IsAnswer {W} {P = P} complete call c w' r =
    (w : W) × (answer : Response P) × (complete (request call c) w ≡ (w', ok answer))
    × (result_of call.response_model answer ≡ ok r)

-- What a loop of at most `left` attempts at the candidate `c` adds.
pub record IsTried {W M P : Type 0} ⦃u : Unicode⦄ (complete : Completion W M P) (call : Call M P)
    (c : Candidate) (left number : ℕ) (records : List CallRecord) (s : State W) (p : Progress W P)
    : Type 0 where
  pub made : List CallRecord
  pub listed : p.records ≡ records ++ made
  pub recorded : p.state.records ≡ s.records ++ made
  pub counted : p.number ≡ number + length made
  pub bounded : length made ≤ left
  pub started : 1 ≤ left → 1 ≤ length made
  pub of_model : All (λ (r : CallRecord). r.provider_model ≡ c.model) made
  pub numbered : IsNumbered number made
  pub ended : IsEnded (success_of c p.result) made
  pub answered : (r : Result P) → p.result ≡ some r → IsAnswer complete call c p.state.world r

append-append {ℓ} :
    {A : Type ℓ} (xs : List A) (x : A) (ys : List A) → (xs ++ x ∷ []) ++ ys ≡ xs ++ x ∷ ys
append-append [] x ys = refl
append-append (z ∷ xs) x ys = ap (λ t. z ∷ t) (append-append xs x ys)

-- A failure before an end.
cons-IsEnded :
    (x : Option CallStatus) (r : CallRecord) (rs : List CallRecord)
    → IsFailure r
    → IsEnded x rs
    → IsEnded x (r ∷ rs)
cons-IsEnded none r rs f e = (f, e)
cons-IsEnded (some st) r [] f e = absurd e
cons-IsEnded (some st) r (r' ∷ rs) f e = (f, e)

module _ {W M P : Type 0} ⦃u : Unicode⦄ (complete : Completion W M P) where
  one-IsTried :
      (call : Call M P) (c : Candidate) (left number : ℕ) (records : List CallRecord) (s : State W)
      (w : W) (usage : TokenUsage) (o : Outcome Exception (Result P)) (x : Option (Result P))
      → IsEnded (success_of c x) (record_of call c (number + 1) usage o ∷ [])
      → ((r : Result P) → x ≡ some r → IsAnswer complete call c w r)
      → IsTried complete call c (suc left) number records s (record {
        state = record {
          world = w;
          records = s.records ++ record_of call c (number + 1) usage o ∷ [];
        };
        number = number + 1;
        records = records ++ record_of call c (number + 1) usage o ∷ [];
        result = x;
      })
  unfolding record_of
  one-IsTried call c left number records s w usage o x h k = record {
    made = record_of call c (number + 1) usage o ∷ [];
    listed = refl;
    recorded = refl;
    counted = refl;
    bounded = omega arith;
    started = λ _. omega arith;
    of_model = (refl, tt);
    numbered = (refl, tt);
    ended = h;
    answered = k;
  }

  next_attempt-IsTried :
      (call : Call M P) (c : Candidate) (left number : ℕ) (records : List CallRecord) (s : State W)
      (w : W) (usage : TokenUsage) (o : Outcome Exception (Result P)) (rest : Progress W P)
      → ((r : Result P) → o ≡ ok r → IsAnswer complete call c w r)
      → (let r = record_of call c (number + 1) usage o in
          IsTried complete call c left
            (number + 1)
            (records ++ r ∷ [])
            (record { world = w; records = s.records ++ r ∷ [] })
            rest)
      → (let r = record_of call c (number + 1) usage o in
          IsTried complete call c (suc left) number records s (
            next_attempt
              (record { world = w; records = s.records ++ r ∷ [] })
              (number + 1)
              (records ++ r ∷ [])
              o
              rest))
  unfolding next_attempt success_of record_of
  next_attempt-IsTried call c left number records s w usage (ok result) rest k t =
      one-IsTried call c left number records s w usage (ok result) (some result) refl
        (λ r e. k r (ap ok (some-injective _ _ e)))
  next_attempt-IsTried call c left number records s w usage (raised (other name)) rest k t =
      one-IsTried call c left number records s w usage (raised (other name)) none (inl refl, tt)
        (λ r e. cc)
  next_attempt-IsTried call c left number records s w usage (raised unreadable) rest k t =
      let r = record_of call c (number + 1) usage (raised unreadable) in
      record {
        made = r ∷ t.made;
        listed = t.listed ∙ append-append records r t.made;
        recorded = t.recorded ∙ append-append s.records r t.made;
        counted = omega (arith, t.counted);
        bounded = omega (arith, t.bounded);
        started = λ _. omega arith;
        of_model = (refl, t.of_model);
        numbered = (refl, t.numbered);
        ended = cons-IsEnded (success_of c rest.result) r t.made (inr refl) t.ended;
        answered = t.answered;
      }

  attempt-IsAnswer :
      (call : Call M P) (c : Candidate) (number : ℕ) (s : State W) (r : Result P)
      → (attempt complete call c number s).2 ≡ ok r
      → IsAnswer complete call c (attempt complete call c number s).0.world r
  unfolding attempt outcome_of
  attempt-IsAnswer call c number s r h = go (complete (request call c) s.world) refl h
    where
      go :
          (p : W × Outcome Exception (Response P))
          → complete (request call c) s.world ≡ p
          → (outcome_of call p.1).1 ≡ ok r
          → IsAnswer complete call c p.0 r
      go (w, raised e) q k = cc
      go (w, ok answer) q k = (s.world, answer, q, k)

  pub try_model-IsTried :
      (call : Call M P) (c : Candidate) (left number : ℕ) (records : List CallRecord) (s : State W)
      → IsTried complete call c left number records s
          (try_model complete call c left number records s)
  unfolding try_model attempt success_of record_of
  try_model-IsTried call c zero number records s = record {
    made = [];
    listed = sym (append-nil records);
    recorded = sym (append-nil s.records);
    counted = omega arith;
    bounded = omega arith;
    started = λ lt. absurd (omega (arith, lt));
    of_model = tt;
    numbered = tt;
    ended = tt;
    answered = λ r e. cc;
  }
  try_model-IsTried call c (suc left) number records s =
      let (s', r, o) = attempt complete call c (number + 1) s in
      next_attempt-IsTried call c left number records s s'.world r.usage o
        (try_model complete call c left (number + 1) (records ++ r ∷ []) s')
        (attempt-IsAnswer call c (number + 1) s) (try_model-IsTried call c left (number + 1) _ _)
