-- ===== src/Base/Table.antt =====
-- A database table by its primary key, or a dict: the rows in the order of their insertion.
use mathlib.Core.Path.{◌≡◌, refl}
use mathlib.Core.Logic.{◌≢◌}
use mathlib.Core.Option.{Option, none, some}
use mathlib.Core.List.{List, [], ◌∷◌}
use native.Mathlib.Omega.{arith}
use neutail.Base.Tests.{if◌then◌else◌}
use neutail.Base.Keys.{Eq, ◌==◌, beq_self}

abbrev pub Table {ℓ κ} : Type ℓ → Type κ → Type (ℓ ⊔ κ)
Table K V = List (K × V)

module _ {ℓ κ} {K : Type ℓ} {V : Type κ} ⦃e : Eq K⦄ where
  -- `session.get(Entity, key)`, `d.get(key)`
  unfoldable pub get : K → Table K V → Option V
  get k [] = none
  get k ((j, v) ∷ t) = if j == k then some v else get k t

  -- an insert, or an update in place; `d[key] = v`
  unfoldable pub put : K → V → Table K V → Table K V
  put k v [] = (k, v) ∷ []
  put k v ((j, w) ∷ t) = if j == k then (k, v) ∷ t else (j, w) ∷ put k v t

  -- `del d[key]`
  unfoldable pub remove : K → Table K V → Table K V
  remove k [] = []
  remove k ((j, w) ∷ t) = let rest = remove k t in if j == k then rest else (j, w) ∷ rest

  pub get-put :
      (k j : K) (v : V) (t : Table K V) → get j (put k v t) ≡ (if k == j then some v else get j t)
  unfolding get put
  get-put k j v [] = refl
  get-put k j v ((i, w) ∷ t) =
      ground (arith, e.beq_iff k j, e.beq_iff i k, e.beq_iff i j, get-put k j v t)

  pub get-put_self : (k : K) (v : V) (t : Table K V) → get k (put k v t) ≡ some v
  get-put_self k v t = ground (arith, get-put k k v t, beq_self k)

  pub get-put_ne : (k j : K) (v : V) (t : Table K V) → k ≢ j → get j (put k v t) ≡ get j t
  get-put_ne k j v t h = ground (arith, get-put k j v t, e.beq_iff k j)

  pub get-remove :
      (k j : K) (t : Table K V) → get j (remove k t) ≡ (if k == j then none else get j t)
  unfolding get remove
  get-remove k j [] = ground arith
  get-remove k j ((i, w) ∷ t) =
      ground (arith, e.beq_iff k j, e.beq_iff i k, e.beq_iff i j, get-remove k j t)

-- The rows, as a scan sees them.
abbrev pub rows {ℓ κ} : {K : Type ℓ} {V : Type κ} → Table K V → List V
rows [] = []
rows ((k, v) ∷ t) = v ∷ rows t

pub ruleset table_laws = (get-put, get-remove)
