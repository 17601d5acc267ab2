-- ===== src/Sessions/Access.antt =====
-- Who reads and writes a session: its customer alone, who reads what was saved.
use neutail.Base.{
  ℕ, ◌≤◌, String, ◌≡◌, refl, ap, ◌≢◌, Option, none, some, List, [], ◌∷◌, arith, beq_self, ok,
  raised,
}
use neutail.Base.Lists.{length}
use neutail.Base.Table.{Table, get, put, get-put_self}
use neutail.Base.Text.{Unicode, codes_eq}
use neutail.Sessions.Schema.{SessionContext, Contexts, identity_mismatch}
use neutail.Sessions.{
  save_context, saved, stored_context, ensure_context, ensured, clear_context, cleared, get_context,
  found_context, check_owner, get_or_create, or_created, required, owned_by, last_items,
  max_conversation_turns,
}

pub length-last_items {ℓ} : {A : Type ℓ} (n : ℕ) (xs : List A) → length (last_items n xs) ≤ n
length-last_items n [] = omega arith
length-last_items n (x ∷ xs) = ground (arith, length-last_items n xs)

last_items-short {ℓ} : {A : Type ℓ} (n : ℕ) (xs : List A) → length xs ≤ n → last_items n xs ≡ xs
last_items-short n [] h = refl
last_items-short n (x ∷ xs) h = ground arith

put-put {ℓ} :
    {V : Type ℓ} (k : List ℕ) (v : V) (t : Table (List ℕ) V) → put k v (put k v t) ≡ put k v t
unfolding put
put-put k v [] = ground (arith, beq_self k)
put-put k v ((j, w) ∷ t) = ground (arith, beq_self k, put-put k v t)

module _ {V : Type 0} where
  stored-again :
      (now : ℕ) (c : SessionContext V)
      → stored_context now (stored_context now c) ≡ stored_context now c
  stored-again now c =
      ap (λ (turns : List V). record c { conversation = turns; updated_at = now })
        (last_items-short max_conversation_turns (stored_context now c).conversation
          (length-last_items max_conversation_turns c.conversation))

  saved-result :
      (c r : SessionContext V) (t t' : Contexts V) (x : Option (SessionContext V))
      → saved c t x ≡ ok (t', r)
      → (t' ≡ put c.session_id c t) × (r ≡ c)
  unfolding saved
  saved-result c r t t' none h = (ground (arith, h), ground (arith, h))
  saved-result c r t t' (some d) h = (ground (arith, h), ground (arith, h))

  owned_by-other :
      (o : List ℕ) (c : SessionContext V)
      → c.customer_id ≢ o
      → owned_by o c ≡ raised identity_mismatch
  owned_by-other o c ne = ground (arith, codes_eq.beq_iff c.customer_id o)

  owned_by-own : (o : List ℕ) (c : SessionContext V) → c.customer_id ≡ o → owned_by o c ≡ ok tt
  owned_by-own o c e = ground (arith, codes_eq.beq_iff c.customer_id o)

  -- Under a session id that another customer has, every method that is given the two ids raises
  -- `SessionIdentityMismatchError`, and so does saving a context of one's own.
  pub get_context-other :
      ⦃u : Unicode⦄ (now : ℕ) (session s customer o : List ℕ) (a : List (String × V))
      (t : Contexts V) (c mine : SessionContext V)
      → required session ≡ ok s
      → required customer ≡ ok o
      → get s t ≡ some c
      → c.customer_id ≢ o
      → mine.session_id ≡ s
      → mine.customer_id ≡ o
      → (get_context session (some customer) t ≡ raised identity_mismatch)
        × (get_or_create now session customer t ≡ raised identity_mismatch)
        × (ensure_context now session customer a t ≡ raised identity_mismatch)
        × (clear_context session customer t ≡ raised identity_mismatch)
        × (save_context now mine t ≡ raised identity_mismatch)
  unfolding get_context found_context check_owner get_or_create or_created ensure_context ensured
      clear_context cleared save_context saved
  get_context-other now session s customer o a t c mine hs ho found ne key owner =
      let other = owned_by-other o c ne in
      (
        rw (hs, ho, found, other) refl,
        rw (hs, ho, found, other) refl,
        rw (hs, ho, found, other) refl,
        rw (hs, ho, found, other) refl,
        rw (key, owner, found, other) refl,
      )

  -- A context that was saved is what `get_context` returns to its customer, and to a caller without
  -- a customer: the saved context with the last twenty of its turns and the time of the save. Saving it again at
  -- that time changes nothing.
  pub get_context-save_context :
      ⦃u : Unicode⦄ (now : ℕ) (c r : SessionContext V) (session customer : List ℕ)
      (t t' : Contexts V)
      → save_context now c t ≡ ok (t', r)
      → required session ≡ ok c.session_id
      → required customer ≡ ok c.customer_id
      → (get_context session (some customer) t' ≡ ok (some (stored_context now c)))
        × (get_context session none t' ≡ ok (some (stored_context now c)))
        × (save_context now r t' ≡ ok (t', r))
  unfolding get_context found_context check_owner save_context saved
  get_context-save_context now c r session customer t t' h hs ho =
      let k = c.session_id in
      let d = stored_context now c in
      let (after, same) = saved-result d r t t' (get k t) h in
      let here : get k t' ≡ some d = rw after (get-put_self k d t) in
      let own = owned_by-own c.customer_id d refl in
      (
        rw (hs, ho, here, own) refl,
        rw (hs, here) refl,
        rw same
            (rw (stored-again now c, here, own) (ap (λ u. ok (u, d)) (rw after (put-put k d t)))),
      )
