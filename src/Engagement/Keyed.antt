-- ===== src/Engagement/Keyed.antt =====
-- The receipts stand under their own ids, as the primary key has them.
use mathlib.Core.Bool.{false≢true}
use neutail.Base.{
  ◌≢◌, ℕ, ◌≡◌, refl, sym, ap, ◌∙◌, inl, inr, Bool, none, some, List, [], ◌∷◌, arith, Bool-cases,
  ◌==◌, nat_eq, string_eq, pair_eq,
}
use neutail.Base.Lists.{find_first}
use neutail.Base.Table.{get-put_ne, Table, get, put, rows}
use neutail.Base.Text.{codes_eq}
use neutail.Engagement.Schema.{Receipt}

-- Each row stands under its own id, once.
abbrev pub IsKeyed : Table (List ℕ) Receipt → Type 0
IsKeyed [] = Unit
IsKeyed ((k, r) ∷ t) = (r.receipt_id ≡ k) × (get k t ≡ none) × IsKeyed t

get-put_other :
    (k i : List ℕ) (r : Receipt) (t : Table (List ℕ) Receipt)
    → i ≢ k
    → get k t ≡ none
    → get k (put i r t) ≡ none
get-put_other k i r t ne h = get-put_ne i k r t ne ∙ h

pub put-IsKeyed :
    (r : Receipt) (t : Table (List ℕ) Receipt) → IsKeyed t → IsKeyed (put r.receipt_id r t)
unfolding put get
put-IsKeyed r [] h = (refl, refl, tt)
put-IsKeyed r ((k, x) ∷ t) (own, once, rest) = elim (Bool-cases (k == r.receipt_id)) [
  | inl q ↦
      let same = (codes_eq.beq_iff k r.receipt_id).0 q in
      rw q (refl, ap (λ i. get i t) (sym same) ∙ once, rest)
  | inr q ↦ rw q (
    own,
    get-put_other k r.receipt_id r t
        (λ e. false≢true (sym q ∙ (codes_eq.beq_iff k r.receipt_id).1 (sym e))) once,
    put-IsKeyed r t rest,
  )
]

-- A row that a scan finds stands under its own id.
pub find_first-IsKeyed :
    (p : Receipt → Bool) (t : Table (List ℕ) Receipt) (r : Receipt)
    → IsKeyed t
    → find_first p (rows t) ≡ some r
    → get r.receipt_id t ≡ some r
unfolding get
find_first-IsKeyed p [] r h f = cc
find_first-IsKeyed p ((k, x) ∷ t) r (own, once, rest) f = elim (Bool-cases (p x)) [
  | inl q ↦
      let same : x ≡ r = ground (arith, rw q at f) in
      rw ((codes_eq.beq_iff k r.receipt_id).1 (sym own ∙ ap (λ (z : Receipt). z.receipt_id) same))
        (ap some same)
  | inr q ↦
      let there = find_first-IsKeyed p t r rest (rw q at f) in
      elim (Bool-cases (k == r.receipt_id)) [
        | inl w ↦
            let same = (codes_eq.beq_iff k r.receipt_id).0 w in
            cc (there, once, ap (λ i. get i t) same)
        | inr w ↦ rw w there
      ]
]

pub get-IsKeyed :
    (k : List ℕ) (t : Table (List ℕ) Receipt) (r : Receipt)
    → IsKeyed t
    → get k t ≡ some r
    → r.receipt_id ≡ k
unfolding get
get-IsKeyed k [] r h f = cc
get-IsKeyed k ((i, x) ∷ t) r (own, once, rest) f = elim (Bool-cases (i == k)) [
  | inl q ↦
      let same : x ≡ r = ground (arith, rw q at f) in
      ap (λ (z : Receipt). z.receipt_id) (sym same) ∙ own ∙ (codes_eq.beq_iff i k).0 q
  | inr q ↦ get-IsKeyed k t r rest (rw q at f)
]
