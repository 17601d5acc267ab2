-- ===== src/Sessions/Fresh.antt =====
-- The loop that draws a session id ends: of distinct ids, one more than there are contexts is enough.
use neutail.Base.{
  ℕ, zero, suc, ◌+◌, ◌≤◌, ◌<◌, String, ◌≡◌, refl, sym, ◌∙◌, ◌≢◌, inl, inr, none, some, List, [],
  ◌∷◌, arith, Bool-cases, Option-cases, Eq, ◌==◌, nat_eq, string_eq, pair_eq, ok,
}
use neutail.Base.Lists.{length}
use neutail.Base.Table.{Table, get, put, remove, get-remove}
use neutail.Base.Text.{Unicode, codes_eq}
use neutail.Sessions.Schema.{SessionContext, Contexts}
use neutail.Sessions.{create_context, created, fresh_id, required, new_context}

-- Removing a key that is there makes the table smaller.
length-remove {ℓ κ} :
    {K : Type ℓ} {V : Type κ} ⦃e : Eq K⦄ (k : K) (t : Table K V) → length (remove k t) ≤ length t
unfolding remove
length-remove k [] = omega arith
length-remove k ((j, w) ∷ t) = ground (arith, length-remove k t)

length-remove_lt {ℓ κ} :
    {K : Type ℓ} {V : Type κ} ⦃e : Eq K⦄ (k : K) (v : V) (t : Table K V)
    → get k t ≡ some v
    → length (remove k t) < length t
unfolding get remove
length-remove_lt k v [] h = cc
length-remove_lt k v ((j, w) ∷ t) h = elim (Bool-cases (j == k)) [
  | inl q ↦ rw q (ground (arith, length-remove k t))
  | inr q ↦ rw q (ground (arith, length-remove_lt k v t (rw q at h)))
]

-- The ids that uuid4 draws are distinct.
abbrev pub IsDistinct : (ℕ → List ℕ) → Type 0
IsDistinct draw = (i j : ℕ) → draw i ≡ draw j → i ≡ j

module _ {V : Type 0} where
  get-remove_other :
      (a b : List ℕ) (w : V) (t : Table (List ℕ) V)
      → a ≢ b
      → get b t ≡ some w
      → get b (remove a t) ≡ some w
  get-remove_other a b w t ne h = ground (arith, get-remove a b t, codes_eq.beq_iff a b)

  -- If so many draws are keys, the table has at least so many rows.
  draws-le :
      (draw : ℕ → List ℕ)
      → IsDistinct draw
      → (fuel n : ℕ) (t : Table (List ℕ) V)
      → ((i : ℕ) → i < fuel → (v : V) × (get (draw (n + i)) t ≡ some v))
      → fuel ≤ length t
  draws-le draw distinct zero n t here = omega arith
  draws-le draw distinct (suc fuel) n t here =
      let (v, first) = here 0 (omega arith) in
      let less = length-remove_lt (draw (n + 0)) v t first in
      let still : (i : ℕ)
          → i < fuel
          → (v : V) × (get (draw (suc n + i)) (remove (draw (n + 0)) t) ≡ some v) =
        λ i lt.
          let (w, q) = here (suc i) (omega arith) in
          let at : n + suc i ≡ suc n + i = omega arith in
          let ne : draw (n + 0) ≢ draw (suc n + i) =
            λ same. omega (arith, distinct (n + 0) (suc n + i) same) in
          (w, get-remove_other (draw (n + 0)) (draw (suc n + i)) w t ne (rw at at q)) in
      omega (arith, less, draws-le draw distinct fuel (suc n) (remove (draw (n + 0)) t) still)

module _ {V : Type 0} ⦃u : Unicode⦄ where
  fresh_id-taken :
      (fuel n : ℕ) (draw : ℕ → List ℕ) (t : Contexts V) (c : SessionContext V)
      → get (draw n) t ≡ some c
      → fresh_id (suc fuel) draw n t ≡ fresh_id fuel draw (suc n) t
  unfolding fresh_id
  fresh_id-taken fuel n draw t c q = rw (fresh_id, q) refl

  fresh_id-free_first :
      (fuel n : ℕ) (draw : ℕ → List ℕ) (t : Contexts V)
      → get (draw n) t ≡ none
      → fresh_id (suc fuel) draw n t ≡ some (draw n)
  unfolding fresh_id
  fresh_id-free_first fuel n draw t q = rw (fresh_id, q) refl

  -- The id found is no key.
  pub fresh_id-free :
      (fuel n : ℕ) (draw : ℕ → List ℕ) (t : Contexts V) (s : List ℕ)
      → fresh_id fuel draw n t ≡ some s
      → get s t ≡ none
  unfolding fresh_id
  fresh_id-free zero n draw t s h = cc
  fresh_id-free (suc fuel) n draw t s h = ground (arith, h, fresh_id-free fuel (suc n) draw t s)

  -- If the loop finds no id, every draw was a key.
  fresh_id-none :
      (fuel n : ℕ) (draw : ℕ → List ℕ) (t : Contexts V)
      → fresh_id fuel draw n t ≡ none
      → (i : ℕ) → i < fuel
      → (c : SessionContext V) × (get (draw (n + i)) t ≡ some c)
  fresh_id-none zero n draw t h i lt = absurd (omega arith)
  fresh_id-none (suc fuel) n draw t h i lt = elim (Option-cases (get (draw n) t)) [
    | inl q ↦ cc (sym (fresh_id-free_first fuel n draw t q) ∙ h)
    | inr (c, q) ↦
        later_draw i lt c q
          (fresh_id-none fuel (suc n) draw t (sym (fresh_id-taken fuel n draw t c q) ∙ h))
  ]
    where
      later_draw :
          (i : ℕ)
          → i < suc fuel
          → (c : SessionContext V) → get (draw n) t ≡ some c
          → ((j : ℕ) → j < fuel → (d : SessionContext V) × (get (draw (suc n + j)) t ≡ some d))
          → (d : SessionContext V) × (get (draw (n + i)) t ≡ some d)
      later_draw zero lt c q rest = let here : n + 0 ≡ n = omega arith in (c, rw here q)
      later_draw (suc i) lt c q rest =
          let next : n + suc i ≡ suc n + i = omega arith in
          let (d, p) = rest i (omega arith) in (d, rw next p)

  -- The loop over distinct ids ends within one turn more than there are contexts.
  fresh_id-returns :
      (draw : ℕ → List ℕ) (t : Contexts V)
      → IsDistinct draw
      → (s : List ℕ) × (fresh_id (suc (length t)) draw 0 t ≡ some s)
  fresh_id-returns draw t distinct = elim (Option-cases (fresh_id (suc (length t)) draw 0 t)) [
    | inl q ↦ absurd (
        omega (
          arith,
          draws-le draw distinct (suc (length t)) 0 t (fresh_id-none (suc (length t)) 0 draw t q),
        ))
    | inr found ↦ found
  ]

  -- For a customer id that is not blank, `create_context` returns if uuid4 draws distinct ids: one turn of
  -- its loop more than there are contexts is enough. The new context is empty, is stored under
  -- an id that was free, and belongs to the customer.
  pub create_context-returns :
      (draw : ℕ → List ℕ) (now : ℕ) (customer o : List ℕ) (a : List (String × V)) (t : Contexts V)
      → IsDistinct draw
      → required customer ≡ ok o
      → (s : List ℕ) × (create_context (suc (length t)) draw now customer a t
          ≡ ok (some (put s (new_context now s o a) t, new_context now s o a)))
        × (get s t ≡ none)
  unfolding create_context created
  create_context-returns draw now customer o a t distinct h =
      let (s, q) = fresh_id-returns draw t distinct in
      (s, rw (h, q) refl, fresh_id-free (suc (length t)) 0 draw t s q)
