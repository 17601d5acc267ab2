-- ===== src/Discovery/Sorted.antt =====
-- The ranking is sorted, keeps every candidate, and does not depend on the candidates' order.
use neutail.Base.{
  ℕ, ◌≡◌, refl, sym, ap, ◌∙◌, ◌≢◌, inl, inr, Bool, true, List, [], ◌∷◌, arith, Bool-cases, nat_eq,
  string_eq, pair_eq,
}
use mathlib.Core.List.{Permᴰ}
use mathlib.Core.Path.{subst}
use neutail.Base.Lists.{All, All-map}
use neutail.Base.Real.{Real, IsReal}
use neutail.Base.Table.{Table}
use neutail.Base.Text.{Unicode}
use neutail.Discovery.Schema.{Product, CustomerContext, Criteria, RankedProduct}
use neutail.Discovery.Before.{IsSorted, precedes-IsBefore}
use neutail.Discovery.Score.{score}
use neutail.Discovery.Order.{precedes-IsTotal, precedes-IsTransitive, precedes-ties}
use neutail.Discovery.{rank, scored, sorted, insert, precedes}

pub All-Permᴰ : {A : Type 0} (P : A → Type 0) {xs ys : List A} → Permᴰ xs ys → All P ys → All P xs
All-Permᴰ P Permᴰ.nil h = h
All-Permᴰ P (Permᴰ.cons e d) (p, h) = (rw e p, All-Permᴰ P d h)
All-Permᴰ P (Permᴰ.swap e f) (p, (q, h)) = (rw e q, (rw f p, h))
All-Permᴰ P (Permᴰ.trans d e) h = All-Permᴰ P d (All-Permᴰ P e h)

module _ {F : Type 0} ⦃r : Real F⦄ where
  -- Each product precedes all that follow.
  abbrev IsOrdered : List (RankedProduct F) → Type 0
  IsOrdered [] = Unit
  IsOrdered (x ∷ xs) = All (λ y. precedes x y ≡ true) xs × IsOrdered xs

  IsOrdered-IsSorted : (xs : List (RankedProduct F)) → IsOrdered xs → IsSorted xs
  IsOrdered-IsSorted [] h = tt
  IsOrdered-IsSorted (x ∷ xs) (first, rest) =
      (All-map (λ y. precedes-IsBefore x y) xs first, IsOrdered-IsSorted xs rest)

  -- No two candidates have one SKU.
  abbrev pub IsDistinct : List (Product F) → Type 0
  IsDistinct [] = Unit
  IsDistinct (p ∷ ps) = All (λ (q : Product F). p.sku ≢ q.sku) ps × IsDistinct ps

  Permᴰ-refl : (xs : List (RankedProduct F)) → Permᴰ xs xs
  Permᴰ-refl [] = Permᴰ.nil
  Permᴰ-refl (x ∷ xs) = Permᴰ.cons refl (Permᴰ-refl xs)

  insert-Permᴰ : (x : RankedProduct F) (ys : List (RankedProduct F)) → Permᴰ (insert x ys) (x ∷ ys)
  unfolding insert
  insert-Permᴰ x [] = Permᴰ-refl (x ∷ [])
  insert-Permᴰ x (y ∷ ys) = elim (Bool-cases (precedes x y)) [
    | inl q ↦ rw q (Permᴰ-refl (x ∷ y ∷ ys))
    | inr q ↦ rw q (Permᴰ.trans (Permᴰ.cons refl (insert-Permᴰ x ys)) (Permᴰ.swap refl refl))
  ]

  pub sorted-Permᴰ : (xs : List (RankedProduct F)) → Permᴰ (sorted xs) xs
  unfolding sorted
  sorted-Permᴰ [] = Permᴰ.nil
  sorted-Permᴰ (x ∷ xs) =
      Permᴰ.trans (insert-Permᴰ x (sorted xs)) (Permᴰ.cons refl (sorted-Permᴰ xs))

  module _ (laws : IsReal F) where
    insert-IsOrdered :
        (x : RankedProduct F) (ys : List (RankedProduct F)) → IsOrdered ys → IsOrdered (insert x ys)
    unfolding insert
    insert-IsOrdered x [] h = (tt, tt)
    insert-IsOrdered x (y ∷ ys) (first, rest) = elim (Bool-cases (precedes x y)) [
      | inl q ↦
          rw q ((q, All-map (λ z k. precedes-IsTransitive laws x y z q k) ys first), (first, rest))
      | inr q ↦
          let back : precedes y x ≡ true = ground (arith, q, precedes-IsTotal laws x y) in
          rw q (
            All-Permᴰ (λ z. precedes y z ≡ true) (insert-Permᴰ x ys) (back, first),
            insert-IsOrdered x ys rest,
          )
    ]

    sorted-IsOrdered : (xs : List (RankedProduct F)) → IsOrdered (sorted xs)
    unfolding sorted
    sorted-IsOrdered [] = tt
    sorted-IsOrdered (x ∷ xs) = insert-IsOrdered x (sorted xs) (sorted-IsOrdered xs)

    -- Two insertions commute where they do not tie.
    insert-insert :
        (a b : RankedProduct F)
        → a.product.sku ≢ b.product.sku
        → (ys : List (RankedProduct F)) → insert a (insert b ys) ≡ insert b (insert a ys)
    unfolding insert
    insert-insert a b ne [] = ground (arith, ne, precedes-IsTotal laws a b, precedes-ties laws a b)
    insert-insert a b ne (y ∷ ys) = ground (
      arith,
      ne,
      precedes-IsTotal laws a b,
      precedes-ties laws a b,
      precedes-IsTotal laws a y,
      precedes-IsTotal laws b y,
      precedes-IsTransitive laws a b y,
      precedes-IsTransitive laws b a y,
      insert-insert a b ne ys,
    )

    IsDistinct-Permᴰ : {ps qs : List (Product F)} → Permᴰ ps qs → IsDistinct qs → IsDistinct ps
    IsDistinct-Permᴰ Permᴰ.nil h = h
    IsDistinct-Permᴰ (Permᴰ.cons {a = a} {l₂ = l} e d) (p, h) = (
      All-Permᴰ (λ (x : Product F). a.sku ≢ x.sku) d
          (subst (λ (z : Product F). All (λ (x : Product F). z.sku ≢ x.sku) l) (sym e) p),
      IsDistinct-Permᴰ d h,
    )
    IsDistinct-Permᴰ (Permᴰ.swap {l = l} e f) ((ne, p), (q, h)) = (
      (
        λ w. ne (ap (λ (z : Product F). z.sku) (sym f) ∙ sym w ∙ ap (λ (z : Product F). z.sku) e),
        subst (λ (z : Product F). All (λ (x : Product F). z.sku ≢ x.sku) l) (sym e) q,
      ),
      (subst (λ (z : Product F). All (λ (x : Product F). z.sku ≢ x.sku) l) (sym f) p, h),
    )
    IsDistinct-Permᴰ (Permᴰ.trans d e) h = IsDistinct-Permᴰ d (IsDistinct-Permᴰ e h)

    module _ ⦃u : Unicode⦄ (context : CustomerContext F) (criteria : Criteria F)
        (semantic : Table (List ℕ) F) (availability : Table (List ℕ) Bool) where
      sorted-scored :
          {ps qs : List (Product F)}
          → Permᴰ ps qs
          → IsDistinct qs
          → sorted (scored context criteria semantic availability ps)
            ≡ sorted (scored context criteria semantic availability qs)
      unfolding sorted scored score
      sorted-scored Permᴰ.nil h = refl
      sorted-scored (Permᴰ.cons e d) (p, h) = rw e (ap (insert _) (sorted-scored d h))
      sorted-scored (Permᴰ.swap {l = l} e f) ((ne, p), (q, h)) =
          rw (e, f)
            (insert-insert _ _ (λ same. ne (sym same))
              (sorted (scored context criteria semantic availability l)))
      sorted-scored (Permᴰ.trans d e) h = sorted-scored d (IsDistinct-Permᴰ e h) ∙ sorted-scored e h

      -- The ranking has each candidate's score exactly once, and is sorted: by the score, highest first,
      -- then by the price, a missing one last, then by the SKU.
      pub rank-IsSorted :
          (ps : List (Product F))
          → IsSorted (rank ps context criteria semantic availability)
            × Permᴰ
                (rank ps context criteria semantic availability)
                (scored context criteria semantic availability ps)
      unfolding rank
      rank-IsSorted ps =
          let xs = scored context criteria semantic availability ps in
          (IsOrdered-IsSorted (sorted xs) (sorted-IsOrdered xs), sorted-Permᴰ xs)

      -- The ranking does not depend on the order of the candidates if their SKUs are distinct.
      pub rank-Permᴰ :
          (ps qs : List (Product F))
          → IsDistinct ps
          → Permᴰ qs ps
          → rank qs context criteria semantic availability
            ≡ rank ps context criteria semantic availability
      unfolding rank
      rank-Permᴰ ps qs distinct d = sorted-scored d distinct
