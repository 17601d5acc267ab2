-- ===== src/Sessions.antt =====
-- services/session_context_service.py: the contexts of the chat sessions, in the process's memory. Each
-- method runs under the lock; it returns the contexts after it beside its result. A context is a value
-- here, as the service copies it on the way in and out.
pub mod Schema
pub mod Ownership
pub mod Fresh
pub mod Access
mod Examples
use neutail.Base.{
  ℕ, zero, suc, ◌+◌, ◌-◌, ◌*◌, ◌/◌, ◌%◌, ◌≤◌, ◌<◌, String, ◌≡◌, refl, sym, ap, ◌∙◌, ◌≢◌, ◌↔◌, ◌⊎◌,
  inl, inr, Bool, true, false, not, ◌&&◌, ◌||◌, Option, none, some, List, [], ◌∷◌, ◌++◌, map, arith,
  ltb, leb, nat_beq, if◌then◌else◌, leb→le, le→leb, Bool-cases, Option-cases, is_some, or_default,
  Eq, ◌==◌, nat_eq, string_eq, pair_eq, beq_self, Outcome, ok, raised, ◌>>=◌, ◌>>◌, require,
  or_raise,
}
use neutail.Base.Lists.{length}
use neutail.Base.Table.{get, put, remove}
use neutail.Base.Text.{Unicode, codes, codes_eq, strip}
use neutail.Sessions.Schema.{Error, SessionContext, Contexts, required_text, identity_mismatch}

abbrev pub max_conversation_turns : ℕ
max_conversation_turns = 20

-- `items[-n:]`, for a positive n
abbrev pub last_items {ℓ} : {A : Type ℓ} → ℕ → List A → List A
last_items n [] = []
last_items n (x ∷ xs) =
    let rest = last_items n xs in if leb (length (x ∷ xs)) n then x ∷ xs else rest

-- `if context.customer_id != customer_id: raise`
abbrev pub owned_by : {V : Type 0} → List ℕ → SessionContext V → Outcome Error (Unit {0})
owned_by customer c = require (c.customer_id == customer) identity_mismatch

module _ ⦃u : Unicode⦄ where
  -- `_required`
  unfoldable pub required : List ℕ → Outcome Error (List ℕ)
  required value = if strip value == [] then raised required_text else ok (strip value)

  -- for an argument that may be `None`
  abbrev pub required_if_given : Option (List ℕ) → Outcome Error (Option (List ℕ))
  required_if_given none = ok none
  required_if_given (some value) = required value >>= λ v. ok (some v)

module _ {V : Type 0} where
  -- A new context: the defaults of `SessionContext`.
  abbrev pub new_context : ℕ → List ℕ → List ℕ → List (String × V) → SessionContext V
  new_context now session customer attributes = record {
    session_id = session;
    customer_id = customer;
    turn_count = 0;
    last_intent = none;
    category = none;
    occasion = none;
    selected_sku = none;
    requested_size = none;
    last_agent = none;
    attributes = attributes;
    customer_context = none;
    conversation = [];
    created_at = now;
    updated_at = now;
  }

  -- The loop over `_contexts`.
  invalidated : ℕ → List ℕ → Contexts V → Contexts V × ℕ
  invalidated now o [] = ([], 0)
  invalidated now o ((s, c) ∷ rest) =
      let (rest', n) = invalidated now o rest in
      if c.customer_id == o
      then ((s, record c { customer_context = none; updated_at = now }) ∷ rest', n + 1)
      else ((s, c) ∷ rest', n)

  module _ ⦃u : Unicode⦄ where
    check_owner : Option (List ℕ) → SessionContext V → Outcome Error (Unit {0})
    check_owner none c = ok tt
    check_owner (some customer) c = owned_by customer c

    found_context :
        Option (List ℕ) → Option (SessionContext V) → Outcome Error (Option (SessionContext V))
    unfolding check_owner
    found_context customer none = ok none
    found_context customer (some c) = check_owner customer c >> ok (some c)

    pub get_context :
        List ℕ → Option (List ℕ) → Contexts V → Outcome Error (Option (SessionContext V))
    unfolding found_context
    get_context session customer contexts = do
      s ← required session
      o ← required_if_given customer
      found_context o (get s contexts)

    or_created : ℕ → List ℕ → List ℕ → Option (SessionContext V) → Outcome Error (SessionContext V)
    or_created now s o none = ok (new_context now s o [])
    or_created now s o (some c) = owned_by o c >> ok c

    pub get_or_create : ℕ → List ℕ → List ℕ → Contexts V → Outcome Error (SessionContext V)
    unfolding or_created
    get_or_create now session customer contexts = do
      s ← required session
      o ← required customer
      or_created now s o (get s contexts)

    ensured :
        ℕ
        → List ℕ
        → List ℕ
        → List (String × V)
        → Contexts V
        → Option (SessionContext V)
        → Outcome Error (Contexts V × SessionContext V)
    ensured now s o attributes contexts none =
        let c = new_context now s o attributes in ok (put s c contexts, c)
    ensured now s o attributes contexts (some c) = owned_by o c >> ok (contexts, c)

    pub ensure_context :
        ℕ
        → List ℕ
        → List ℕ
        → List (String × V)
        → Contexts V
        → Outcome Error (Contexts V × SessionContext V)
    unfolding ensured
    ensure_context now session customer attributes contexts = do
      s ← required session
      o ← required customer
      ensured now s o attributes contexts (get s contexts)

    -- `del`, for the session's customer
    cleared :
        List ℕ → List ℕ → Contexts V → Option (SessionContext V) → Outcome Error (Contexts V × Bool)
    cleared s o contexts none = ok (contexts, false)
    cleared s o contexts (some c) = owned_by o c >> ok (remove s contexts, true)

    pub clear_context : List ℕ → List ℕ → Contexts V → Outcome Error (Contexts V × Bool)
    unfolding cleared
    clear_context session customer contexts = do
      s ← required session
      o ← required customer
      cleared s o contexts (get s contexts)

    pub invalidate_customer_context : ℕ → List ℕ → Contexts V → Outcome Error (Contexts V × ℕ)
    unfolding invalidated
    invalidate_customer_context now customer contexts = do
      o ← required customer
      ok (invalidated now o contexts)

    -- `while True: session_id = ...`, over the ids that uuid4 draws from the `n`th on
    pub fresh_id : ℕ → (ℕ → List ℕ) → ℕ → Contexts V → Option (List ℕ)
    fresh_id zero draw n contexts = none
    fresh_id (suc fuel) draw n contexts = elim (get (draw n) contexts) [
      | none ↦ some (draw n)
      | some c ↦ fresh_id fuel draw (suc n) contexts
    ]

    created :
        ℕ
        → List ℕ
        → List (String × V)
        → Contexts V
        → Option (List ℕ)
        → Option (Contexts V × SessionContext V)
    created now o attributes contexts none = none
    created now o attributes contexts (some s) =
        let c = new_context now s o attributes in some (put s c contexts, c)

    -- The result is `none` if the fuel runs out.
    pub create_context :
        ℕ
        → (ℕ → List ℕ)
        → ℕ
        → List ℕ
        → List (String × V)
        → Contexts V
        → Outcome Error (Option (Contexts V × SessionContext V))
    unfolding created fresh_id
    create_context fuel draw now customer attributes contexts = do
      o ← required customer
      ok (created now o attributes contexts (fresh_id fuel draw 0 contexts))

  -- What is stored for a context.
  abbrev pub stored_context : ℕ → SessionContext V → SessionContext V
  stored_context now c = record c {
    conversation = last_items max_conversation_turns c.conversation;
    updated_at = now;
  }

  saved :
      SessionContext V
      → Contexts V
      → Option (SessionContext V)
      → Outcome Error (Contexts V × SessionContext V)
  saved c contexts none = ok (put c.session_id c contexts, c)
  saved c contexts (some existing) =
      owned_by c.customer_id existing >> ok (put c.session_id c contexts, c)

  pub save_context :
      ℕ → SessionContext V → Contexts V → Outcome Error (Contexts V × SessionContext V)
  unfolding saved
  save_context now context contexts =
      saved (stored_context now context) contexts (get context.session_id contexts)
