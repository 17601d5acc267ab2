-- ===== src/Gateway/Governed.antt =====
-- What the gateway's loop does, whatever the models answer: which attempts it makes and records, and what
-- it returns.
use neutail.Gateway.Tried.{
  IsFailure, IsNumbered, IsEnded, IsAnswer, IsTried, success_of, try_model-IsTried,
}
use neutail.Gateway.Reply.{result_of}
use neutail.Base.Text.{Unicode}
use neutail.Base.{
  ℕ, zero, suc, ◌+◌, ◌≤◌, ◌≡◌, refl, sym, ap, ◌∙◌, ◌≢◌, ◌⊎◌, inl, inr, Bool, true, false, Option,
  none, some, List, [], ◌∷◌, ◌++◌, arith, Bool-cases, ◌==◌, nat_eq, string_eq, pair_eq, Outcome, ok,
  raised,
}
use mathlib.Core.List.{append_assoc, append-nil}
use neutail.Base.Lists.{All, All-map, length}
use neutail.Base.Text.{Unicode, codes_eq}
use neutail.Gateway.Schema.{Response, CallRecord, ModelRoute, Result, success, fallback_success}
use neutail.Gateway.{
  request, Call, Candidate, Completion, Error, Progress, State, attempt, candidates, invoke_models,
  invocation_failed, next_attempt, structured_attempts, try_candidates, try_model, outcome_of,
  returned,
}

abbrev pub first : ModelRoute → Candidate
first route = record {
  model = route.primary_model;
  options = route.primary_options;
  is_fallback = false;
}

abbrev pub second : ModelRoute → List ℕ → Candidate
second route m = record { model = m; options = route.fallback_options; is_fallback = true }

-- There is no fallback, or it may not be used.
abbrev pub IsAlone : ModelRoute → Type 0
IsAlone route =
    (route.policy.allow_fallback ≡ false)
    ⊎ ((route.fallback_model ≡ none) ⊎ (route.fallback_model ≡ some []))

-- A result is that of the last attempt, at the one or the other model, and an error has all the attempts.
abbrev pub HasResult :
    {W M P : Type 0}
    → ⦃u : Unicode⦄ → Completion W M P
    → Call M P
    → W
    → Outcome Error (Result P)
    → List CallRecord
    → List CallRecord
    → Type 0
HasResult complete call w (ok r) primary fallback =
    (IsEnded (some success) primary
      × (fallback ≡ [])
      × IsAnswer complete call (first call.route) w r)
    ⊎ (All IsFailure primary
        × IsEnded (some fallback_success) fallback
        × (m : List ℕ) × (call.route.fallback_model ≡ some m)
        × IsAnswer complete call (second call.route m) w r)
HasResult complete call w (raised e) primary fallback =
    All IsFailure primary
    × All IsFailure fallback
    × (IsAlone call.route ⊎ (1 ≤ length fallback))
    × (e ≡ invocation_failed call.route.use_case (primary ++ fallback))

-- The attempts of a whole call: those at the primary model, then those at the fallback.
pub record IsGoverned {W M P : Type 0} ⦃u : Unicode⦄ (complete : Completion W M P) (call : Call M P)
    (s s' : State W) (out : Outcome Error (Result P)) : Type 0 where
  pub primary : List CallRecord
  pub fallback : List CallRecord
  pub recorded : s'.records ≡ s.records ++ (primary ++ fallback)
  pub of_primary : All (λ (r : CallRecord). r.provider_model ≡ call.route.primary_model) primary
  pub of_fallback :
      All
        (λ (r : CallRecord).
          (call.route.policy.allow_fallback ≡ true)
          × (call.route.fallback_model ≡ some r.provider_model))
        fallback
  pub started : 1 ≤ length primary
  pub bounded : length primary ≤ structured_attempts call
  pub fallback_bounded : length fallback ≤ structured_attempts call
  pub numbered : IsNumbered 0 (primary ++ fallback)
  pub ended : HasResult complete call s'.world out primary fallback

append-IsNumbered :
    (n : ℕ) (p q : List CallRecord)
    → IsNumbered n p
    → IsNumbered (n + length p) q
    → IsNumbered n (p ++ q)
append-IsNumbered n [] q h k = let e : n + 0 ≡ n = omega arith in rw e at k
append-IsNumbered n (r ∷ p) q (e, h) k =
    let same : n + suc (length p) ≡ n + 1 + length p = omega arith in
    (e, append-IsNumbered (n + 1) p q h (rw same at k))

-- With the fallback or without it.
candidates-cases :
    (route : ModelRoute)
    → ((candidates route ≡ first route ∷ []) × IsAlone route)
      ⊎ ((m : List ℕ) × (route.policy.allow_fallback ≡ true)
          × (route.fallback_model ≡ some m)
          × (candidates route ≡ first route ∷ second route m ∷ []))
candidates-cases route = go route.policy.allow_fallback route.fallback_model refl refl
  where
    go :
        (b : Bool) (f : Option (List ℕ))
        → route.policy.allow_fallback ≡ b
        → route.fallback_model ≡ f
        → (candidates route ≡ first route ∷ []) × IsAlone route
          ⊎ ((m : List ℕ) × (route.policy.allow_fallback ≡ true)
              × (route.fallback_model ≡ some m)
              × (candidates route ≡ first route ∷ second route m ∷ []))
    go false f p q = inl (rw p refl, inl p)
    go true none p q = inl (rw (p, q) refl, inr (inl q))
    go true (some m) p q = elim (Bool-cases (m == [])) [
      | inl e ↦ inl (rw (p, q, e) refl, inr (inr (q ∙ ap some ((codes_eq.beq_iff m []).0 e))))
      | inr e ↦ inr (m, p, q, rw (p, q, e) refl)
    ]

module _ {W M P : Type 0} ⦃u : Unicode⦄ (complete : Completion W M P) (call : Call M P)
    (s : State W) (p : Progress W P)
    (t : IsTried complete call (first call.route) (structured_attempts call) 0 [] s p) where
  -- After the primary model, if there is no fallback or there is a result.
  first-IsGoverned :
      (out : Outcome Error (Result P))
      → HasResult complete call p.state.world out t.made []
      → IsGoverned complete call s p.state out
  first-IsGoverned out h = record {
    primary = t.made;
    fallback = [];
    recorded = rw (append-nil t.made) t.recorded;
    of_primary = t.of_model;
    of_fallback = tt;
    started = t.started (omega arith);
    bounded = t.bounded;
    fallback_bounded = omega arith;
    numbered = rw (append-nil t.made) t.numbered;
    ended = h;
  }

  -- After both.
  second-IsGoverned :
      (m : List ℕ) (q : Progress W P)
      → call.route.policy.allow_fallback ≡ true
      → call.route.fallback_model ≡ some m
      → (k : IsTried complete call
          (second call.route m)
          (structured_attempts call)
          p.number
          p.records
          p.state
          q)
      → (out : Outcome Error (Result P)) → HasResult complete call q.state.world out t.made k.made
      → IsGoverned complete call s q.state out
  second-IsGoverned m q allowed has k out h = record {
    primary = t.made;
    fallback = k.made;
    recorded = k.recorded ∙ (rw t.recorded (append_assoc s.records t.made k.made));
    of_primary = t.of_model;
    of_fallback = All-map (λ r e. (allowed, rw e has)) k.made k.of_model;
    started = t.started (omega arith);
    bounded = t.bounded;
    fallback_bounded = k.bounded;
    numbered = append-IsNumbered 0 t.made k.made t.numbered (rw t.counted at k.numbered);
    ended = h;
  }

  alone-IsGoverned :
      (x : Option (Result P))
      → IsAlone call.route
      → p.result ≡ x
      → let out =
          returned p x (p.state, raised (invocation_failed call.route.use_case p.records)) in
        IsGoverned complete call s out.0 out.1
  unfolding returned success_of
  alone-IsGoverned none alone e = first-IsGoverned _ (
    rw e at t.ended,
    tt,
    inl alone,
    ap (λ rs. invocation_failed call.route.use_case rs) (t.listed ∙ sym (append-nil t.made)),
  )
  alone-IsGoverned (some r) alone e =
      first-IsGoverned (ok r) (inl (rw e at t.ended, refl, t.answered r e))

  both-IsGoverned :
      (m : List ℕ) (q : Progress W P)
      → call.route.policy.allow_fallback ≡ true
      → call.route.fallback_model ≡ some m
      → IsTried complete call
          (second call.route m)
          (structured_attempts call)
          p.number
          p.records
          p.state
          q
      → (x y : Option (Result P)) → p.result ≡ x
      → q.result ≡ y
      → let out =
          returned p x
            (returned q y (q.state, raised (invocation_failed call.route.use_case q.records))) in
        IsGoverned complete call s out.0 out.1
  unfolding returned success_of
  both-IsGoverned m q allowed has k (some r) y e e' =
      first-IsGoverned (ok r) (inl (rw e at t.ended, refl, t.answered r e))
  both-IsGoverned m q allowed has k none (some r) e e' =
      second-IsGoverned m q allowed has k (ok r)
        (inr (rw e at t.ended, rw e' at k.ended, m, has, k.answered r e'))
  both-IsGoverned m q allowed has k none none e e' = second-IsGoverned m q allowed has k _ (
    rw e at t.ended,
    rw e' at k.ended,
    inr (k.started (omega arith)),
    ap (λ rs. invocation_failed call.route.use_case rs)
        (k.listed ∙ ap (λ rs. rs ++ k.made) t.listed),
  )

module _ {W P : Type 0} where
  returned-ok :
      (p q : Progress W P) (x : Option (Result P)) (rest : State W × Outcome Error (Result P))
      (r : Result P)
      → q.result ≡ some r
      → (r' : Result P) × ((returned p x (returned q q.result rest)).1 ≡ ok r')
  unfolding returned
  returned-ok p q none rest r e = (r, rw e refl)
  returned-ok p q (some r') rest r e = (r', refl)

module _ {W M P : Type 0} ⦃u : Unicode⦄ where
  -- Whatever the models answer, the gateway tries the primary model at least once and, if the policy
  -- allows and only after each of those attempts failed, the fallback, each at most as often as the
  -- policy's retries allow. The attempts are counted from 1 and each is recorded. A result is what its
  -- model's last response reads as, and the first success ends the call; only if all attempts failed,
  -- at the fallback too if there is one, is there an error, which has the records of all of them.
  pub invoke_models-IsGoverned :
      (complete : Completion W M P) (call : Call M P) (s : State W)
      → let out = invoke_models complete call s in IsGoverned complete call s out.0 out.1
  unfolding invoke_models try_candidates
  invoke_models-IsGoverned complete call s = elim (candidates-cases call.route) [
    | inl (one, alone) ↦ rw one (alone-IsGoverned complete call s p tried p.result alone refl)
    | inr (m, allowed, has, two) ↦
        let q = try_model complete call (second call.route m) n p.number p.records p.state in
        rw two (
          both-IsGoverned complete call s p tried m q allowed has
            (try_model-IsTried complete call (second call.route m) n p.number p.records p.state)
            p.result q.result refl refl)
  ]
    where
      n : ℕ
      n = structured_attempts call

      p : Progress W P
      p = try_model complete call (first call.route) n 0 [] s

      tried : IsTried complete call (first call.route) n 0 [] s p
      tried = try_model-IsTried complete call (first call.route) n 0 [] s

  -- The candidate's model answers every request with a response that has a result.
  abbrev pub Answers : Completion W M P → Call M P → Candidate → Type 0
  Answers complete call c =
      (w : W)
      → (answer : Response P) × (r : Result P) × ((complete (request call c) w).1 ≡ ok answer)
        × (result_of call.response_model answer ≡ ok r)

  try_model-Answers :
      (complete : Completion W M P) (call : Call M P) (c : Candidate) (left number : ℕ)
      (records : List CallRecord) (s : State W)
      → Answers complete call c
      → 1 ≤ left
      → (r : Result P) × ((try_model complete call c left number records s).result ≡ some r)
  unfolding try_model attempt next_attempt outcome_of
  try_model-Answers complete call c zero number records s h lt = absurd (omega (arith, lt))
  try_model-Answers complete call c (suc left) number records s h lt =
      let (answer, r, e, q) = h s.world in (r, rw (e, q) refl)

  -- A call returns a result if the fallback is allowed and its model answers, whatever the primary
  -- model does.
  pub invoke_models-returns :
      (complete : Completion W M P) (call : Call M P) (s : State W) (m : List ℕ)
      → call.route.policy.allow_fallback ≡ true
      → call.route.fallback_model ≡ some m
      → m ≢ []
      → Answers complete call
          (record { model = m; options = call.route.fallback_options; is_fallback = true })
      → (r : Result P) × ((invoke_models complete call s).1 ≡ ok r)
  unfolding invoke_models try_candidates
  invoke_models-returns complete call s m allowed has ne h =
      let empty : (m == []) ≡ false = ground (arith, codes_eq.beq_iff m []) in
      let two : candidates call.route ≡ first call.route ∷ second call.route m ∷ [] =
        rw (allowed, has, empty) refl in
      let n = structured_attempts call in
      let p = try_model complete call (first call.route) n 0 [] s in
      let q = try_model complete call (second call.route m) n p.number p.records p.state in
      let (r, e) =
        try_model-Answers complete call (second call.route m) n p.number p.records p.state h
          (omega arith) in
      rw two (returned-ok p q p.result _ r e)
