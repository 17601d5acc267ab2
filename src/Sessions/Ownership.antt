-- ===== src/Sessions/Ownership.antt =====
-- Sequences of calls: each context stays valid, and belongs to one customer until that customer clears it.
use neutail.Base.{
  ℕ, ◌+◌, ◌≤◌, String, ◌≡◌, refl, sym, ap, ◌∙◌, ◌⊎◌, inl, inr, Bool, true, false, Option, none,
  some, List, [], ◌∷◌, arith, if◌then◌else◌, Bool-cases, ◌==◌, nat_eq, string_eq, pair_eq, Outcome,
  ok, ◌>>◌,
}
use neutail.Base.{>>=_inv}
use neutail.Base.Lists.{All, length}
use neutail.Base.Table.{get, put, remove, get-put, get-remove}
use neutail.Base.Text.{Unicode, codes_eq}
use neutail.Sessions.Access.{length-last_items}
use neutail.Sessions.Fresh.{fresh_id-free}
use neutail.Sessions.Schema.{Error, SessionContext, Contexts}
use neutail.Sessions.{
  save_context, saved, stored_context, ensure_context, ensured, clear_context, cleared,
  invalidate_customer_context, invalidated, create_context, created, required, owned_by,
  max_conversation_turns, new_context,
}

-- A method's call that returned, from the contexts `t` to the contexts `t'`. The methods that only read
-- leave the contexts as they are.
pub data Step {V : Type 0} ⦃u : Unicode⦄ (t t' : Contexts V) : Type 0 where
  save : (now : ℕ) (c r : SessionContext V) → save_context now c t ≡ ok (t', r) → Step t t'
  ensure :
      (now : ℕ) (s o : List ℕ) (a : List (String × V)) (r : SessionContext V)
      → ensure_context now s o a t ≡ ok (t', r)
      → Step t t'
  create :
      (fuel now : ℕ) (draw : ℕ → List ℕ) (o : List ℕ) (a : List (String × V)) (r : SessionContext V)
      → create_context fuel draw now o a t ≡ ok (some (t', r))
      → Step t t'
  clear : (s o : List ℕ) (b : Bool) → clear_context s o t ≡ ok (t', b) → Step t t'
  invalidate :
      (now : ℕ) (o : List ℕ) (n : ℕ) → invalidate_customer_context now o t ≡ ok (t', n) → Step t t'

-- The call is the customer `o`'s, and clears the session `s`.
abbrev pub IsClear :
    {V : Type 0} ⦃u : Unicode⦄ {t t' : Contexts V} → Step t t' → List ℕ → List ℕ → Type 0
IsClear (clear s o b h) s' o' = (required s ≡ ok s') × (required o ≡ ok o')
IsClear (save now c r h) s' o' = ⊥
IsClear (ensure now s o a r h) s' o' = ⊥
IsClear (create fuel now draw o a r h) s' o' = ⊥
IsClear (invalidate now o n h) s' o' = ⊥

pub data Reach {V : Type 0} ⦃u : Unicode⦄ : Contexts V → Type 0 where
  empty : Reach []
  next : {t t' : Contexts V} → Reach t → Step t t' → Reach t'

-- A context stands under its own id, with at most twenty turns.
pub record IsStored {V : Type 0} (row : List ℕ × SessionContext V) : Type 0 where
  pub key : row.1.session_id ≡ row.0
  pub bounded : length row.1.conversation ≤ 20

abbrev pub IsValid : {V : Type 0} → Contexts V → Type 0
IsValid = All IsStored

module _ {V : Type 0} where
  put-IsValid :
      (s : List ℕ) (c : SessionContext V) (t : Contexts V)
      → IsStored (s, c)
      → IsValid t
      → IsValid (put s c t)
  unfolding put
  put-IsValid s c [] h v = (h, tt)
  put-IsValid s c ((k, d) ∷ t) h (w, v) = elim (Bool-cases (k == s)) [
    | inl q ↦ rw q (h, v)
    | inr q ↦ rw q (w, put-IsValid s c t h v)
  ]

  remove-IsValid : (s : List ℕ) (t : Contexts V) → IsValid t → IsValid (remove s t)
  unfolding remove
  remove-IsValid s [] v = tt
  remove-IsValid s ((k, d) ∷ t) (w, v) = elim (Bool-cases (k == s)) [
    | inl q ↦ rw q (remove-IsValid s t v)
    | inr q ↦ rw q (w, remove-IsValid s t v)
  ]

  new-IsStored :
      (now : ℕ) (s o : List ℕ) (a : List (String × V)) → IsStored (s, new_context now s o a)
  new-IsStored now s o a = record { key = refl; bounded = omega arith }

  save-IsStored : (now : ℕ) (c : SessionContext V) → IsStored (c.session_id, stored_context now c)
  save-IsStored now c = record {
    key = refl;
    bounded = length-last_items max_conversation_turns c.conversation;
  }

  -- Nobody, or the same customer, has the session so far.
  Claimable : List ℕ → List ℕ → Contexts V → Type 0
  Claimable s o t = (d : SessionContext V) → get s t ≡ some d → d.customer_id ≡ o

  -- What a call has done to the contexts, where `P s o` tells a call of `o` to clear the session `s`.
  data Change (P : List ℕ → List ℕ → Type 0) (t t' : Contexts V) : Type 0 where
    unchanged : t' ≡ t → Change P t t'
    written :
        (s : List ℕ) (c : SessionContext V)
        → IsStored (s, c)
        → Claimable s c.customer_id t
        → t' ≡ put s c t
        → Change P t t'
    deleted : (s : List ℕ) (o : List ℕ) → P s o → Claimable s o t → t' ≡ remove s t → Change P t t'
    dropped : (now : ℕ) (o : List ℕ) → t' ≡ (invalidated now o t).0 → Change P t t'

  owned_inv :
      {A : Type 0} (o : List ℕ) (c : SessionContext V) (m : Outcome Error A) (a : A)
      → (owned_by o c >> m) ≡ ok a
      → (c.customer_id ≡ o) × (m ≡ ok a)
  owned_inv o c m a h = go (c.customer_id == o) refl
    where
      go : (b : Bool) → (c.customer_id == o) ≡ b → (c.customer_id ≡ o) × (m ≡ ok a)
      go true q = ((codes_eq.beq_iff c.customer_id o).0 q, rw q at h)
      go false q = cc (rw q at h)

  Claimable-found :
      (s o : List ℕ) (t : Contexts V) (d : SessionContext V)
      → get s t ≡ some d
      → d.customer_id ≡ o
      → Claimable s o t
  unfolding Claimable
  Claimable-found s o t d q e d' q' = ground (arith, q, q', e)

  Claimable-none : (s o : List ℕ) (t : Contexts V) → get s t ≡ none → Claimable s o t
  unfolding Claimable
  Claimable-none s o t q d q' = cc

  saved_inv :
      (c r : SessionContext V) (t t' : Contexts V) (o : Option (SessionContext V))
      → get c.session_id t ≡ o
      → saved c t o ≡ ok (t', r)
      → Claimable c.session_id c.customer_id t × (t' ≡ put c.session_id c t)
  unfolding saved
  saved_inv c r t t' none q h = (Claimable-none c.session_id c.customer_id t q, ground (arith, h))
  saved_inv c r t t' (some d) q h =
      let (e, k) = owned_inv c.customer_id d _ _ h in
      (Claimable-found c.session_id c.customer_id t d q e, ground (arith, k))

module _ {V : Type 0} ⦃u : Unicode⦄ where
  ensured-Change :
      (P : List ℕ → List ℕ → Type 0) (now : ℕ) (s o : List ℕ) (a : List (String × V))
      (r : SessionContext V) (t t' : Contexts V) (x : Option (SessionContext V))
      → get s t ≡ x
      → ensured now s o a t x ≡ ok (t', r)
      → Change P t t'
  unfolding ensured
  ensured-Change P now s o a r t t' none q h =
      written s (new_context now s o a) (new-IsStored now s o a) (Claimable-none s o t q)
        (ground (arith, h))
  ensured-Change P now s o a r t t' (some d) q h =
      let (e, k) = owned_inv o d _ _ h in unchanged (ground (arith, k))

  cleared-Change :
      (P : List ℕ → List ℕ → Type 0) (s o : List ℕ) (b : Bool) (t t' : Contexts V)
      (x : Option (SessionContext V))
      → P s o
      → get s t ≡ x
      → cleared s o t x ≡ ok (t', b)
      → Change P t t'
  unfolding cleared
  cleared-Change P s o b t t' none p q h = unchanged (ground (arith, h))
  cleared-Change P s o b t t' (some d) p q h =
      let (e, k) = owned_inv o d _ _ h in
      deleted s o p (Claimable-found s o t d q e) (ground (arith, k))

  created-Change :
      (P : List ℕ → List ℕ → Type 0) (now : ℕ) (o : List ℕ) (a : List (String × V))
      (r : SessionContext V) (t t' : Contexts V) (x : Option (List ℕ))
      → ((s : List ℕ) → x ≡ some s → get s t ≡ none)
      → created now o a t x ≡ some (t', r)
      → Change P t t'
  unfolding created
  created-Change P now o a r t t' none free h = cc
  created-Change P now o a r t t' (some s) free h =
      written s (new_context now s o a) (new-IsStored now s o a)
        (Claimable-none s o t (free s refl)) (ground (arith, h))

  Step-Change : {t t' : Contexts V} (st : Step t t') → Change (IsClear st) t t'
  unfolding save_context ensure_context create_context clear_context invalidate_customer_context
  Step-Change {t} {t'} (save now c r h) =
      let (k, e) = saved_inv (stored_context now c) r t t' _ refl h in
      written c.session_id (stored_context now c) (save-IsStored now c) k e
  Step-Change {t} {t'} (ensure now s o a r h) =
      let (s', _, h₁) = >>=_inv (required s) _ _ h in
      let (o', _, h₂) = >>=_inv (required o) _ _ h₁ in ensured-Change _ now s' o' a r t t' _ refl h₂
  Step-Change {t} {t'} (create fuel now draw o a r h) =
      let (o', _, h₁) = >>=_inv (required o) _ _ h in
      created-Change _ now o' a r t t' _ (fresh_id-free fuel 0 draw t) (ground (arith, h₁))
  Step-Change {t} {t'} (clear s o b h) =
      let (s', p₁, h₁) = >>=_inv (required s) _ _ h in
      let (o', p₂, h₂) = >>=_inv (required o) _ _ h₁ in
      cleared-Change (IsClear (clear s o b h)) s' o' b t t' _ (p₁, p₂) refl h₂
  Step-Change {t} {t'} (invalidate now o n h) =
      let (o', _, h₁) = >>=_inv (required o) _ _ h in dropped now o' (ground (arith, h₁))

  invalidated-IsValid :
      (now : ℕ) (o : List ℕ) (t : Contexts V) → IsValid t → IsValid (invalidated now o t).0
  unfolding invalidated
  invalidated-IsValid now o [] v = tt
  invalidated-IsValid now o ((s, c) ∷ t) (w, v) = elim (Bool-cases (c.customer_id == o)) [
    | inl q ↦ rw q (record { key = w.key; bounded = w.bounded }, invalidated-IsValid now o t v)
    | inr q ↦ rw q (w, invalidated-IsValid now o t v)
  ]

  Change-IsValid :
      {P : List ℕ → List ℕ → Type 0} {t t' : Contexts V} → Change P t t' → IsValid t → IsValid t'
  Change-IsValid (unchanged e) v = rw e v
  Change-IsValid {P} {t} (written s c w k e) v = rw e (put-IsValid s c t w v)
  Change-IsValid {P} {t} (deleted s o p k e) v = rw e (remove-IsValid s t v)
  Change-IsValid {P} {t} (dropped now o e) v = rw e (invalidated-IsValid now o t v)

  -- After any sequence of calls, each context stands under its own session id and holds at most the
  -- last twenty turns of its conversation.
  pub Reach-IsValid : {t : Contexts V} → Reach t → IsValid t
  Reach-IsValid empty = tt
  Reach-IsValid (next r st) = Change-IsValid (Step-Change st) (Reach-IsValid r)

  -- The session belongs to the customer `o`.
  abbrev pub Owns : Contexts V → List ℕ → List ℕ → Type 0
  Owns t s o = (c : SessionContext V) × (get s t ≡ some c) × (c.customer_id ≡ o)

  written-Owns :
      (s s' o : List ℕ) (c : SessionContext V) (t : Contexts V)
      → Claimable s' c.customer_id t
      → Owns t s o
      → Owns (put s' c t) s o
  unfolding Claimable
  written-Owns s s' o c t k (d, q, e) = go (s' == s) refl
    where
      go : (b : Bool) → (s' == s) ≡ b → Owns (put s' c t) s o
      go true p =
          let same = (codes_eq.beq_iff s' s).0 p in (c, rw (get-put, p), sym (k d (rw same q)) ∙ e)
      go false p = (d, rw (get-put, p) q, e)

  invalidated-Owns :
      (now : ℕ) (a s o : List ℕ) (t : Contexts V) → Owns t s o → Owns (invalidated now a t).0 s o
  unfolding invalidated get
  invalidated-Owns now a s o [] (d, q, e) = cc
  invalidated-Owns now a s o ((k, c) ∷ t) (d, q, e) =
      go (c.customer_id == a) (k == s) refl (invalidated-Owns now a s o t)
    where
      c' : SessionContext V
      c' = record c { customer_context = none; updated_at = now }

      head-eq : (k == s) ≡ true → c ≡ d
      head-eq p = ground (arith, rw p at q)

      go :
          (b b' : Bool)
          → (k == s) ≡ b'
          → (Owns t s o → Owns (invalidated now a t).0 s o)
          → Owns
              (if◌then◌else◌ {A = Contexts V × ℕ} b
                ((k, c') ∷ (invalidated now a t).0, (invalidated now a t).1 + 1)
                ((k, c) ∷ (invalidated now a t).0, (invalidated now a t).1)).0
              s
              o
      go true true p ih = (c', rw p, ap (λ (x : SessionContext V). x.customer_id) (head-eq p) ∙ e)
      go false true p ih = (c, rw p, ap (λ (x : SessionContext V). x.customer_id) (head-eq p) ∙ e)
      go true false p ih = rw p (ih (d, rw p at q, e))
      go false false p ih = rw p (ih (d, rw p at q, e))

  -- A session stays its customer's whatever is called, unless that customer clears it: nobody else can
  -- take it over or remove it.
  pub Step-Owns :
      {t t' : Contexts V} (s o : List ℕ) (st : Step t t')
      → Owns t s o
      → Owns t' s o ⊎ ((get s t' ≡ none) × IsClear st s o)
  unfolding Claimable
  Step-Owns {t} {t'} s o st owns = go (Step-Change st)
    where
      go : Change (IsClear st) t t' → Owns t' s o ⊎ ((get s t' ≡ none) × IsClear st s o)
      go (unchanged e) = inl (rw e owns)
      go (written s' c w k e) = inl (rw e (written-Owns s s' o c t k owns))
      go (deleted s' o' p k e) = cleared_case (s' == s) refl
        where
          cleared_case :
              (b : Bool) → (s' == s) ≡ b → Owns t' s o ⊎ ((get s t' ≡ none) × IsClear st s o)
          cleared_case true q =
              let same = (codes_eq.beq_iff s' s).0 q in
              let (d, here, owner) = owns in
              let owner' : o' ≡ o = sym (k d (rw same here)) ∙ owner in
              inr (rw e (rw (get-remove, q)), rw (sym same, sym owner') p)
          cleared_case false q =
              let (d, here, owner) = owns in inl (d, rw e (rw (get-remove, q) here), owner)
      go (dropped now a e) = inl (rw e (invalidated-Owns now a s o t owns))
