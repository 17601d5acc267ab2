-- ===== src/Base/Real.antt =====
-- Python's floats, as the program uses them: an interface of operations. `IsReal` states what holds of
-- finite floats (no NaN, no overflow): the order, and that rounding and the operations respect it.
use neutail.Base.{
  ℕ, ◌≤◌, ◌≡◌, ◌⊎◌, Bool, true, not, ◌&&◌, arith, if◌then◌else◌, nat_eq, string_eq, pair_eq,
}
use mathlib.Core.Path.{subst}

pub record Real (F : Type 0) : Type 0 where
  pub add : F → F → F
  pub sub : F → F → F
  pub mul : F → F → F
  pub div : F → F → F
  pub of_nat : ℕ → F
  -- the literal `n / 10 ^ k`
  pub decimal : ℕ → ℕ → F
  -- `round(x, k)`
  pub round : F → ℕ → F
  pub le : F → F → Bool

module _ {F : Type 0} ⦃r : Real F⦄ where
  abbrev pub zero_real : F
  zero_real = r.of_nat 0

  abbrev pub one_real : F
  one_real = r.of_nat 1

  -- `x < y`
  abbrev pub lt : F → F → Bool
  lt x y = not (r.le y x)

  -- `x == y`
  abbrev pub same_real : F → F → Bool
  same_real x y = r.le x y && r.le y x

  -- `max(x, y)` and `min(x, y)`
  abbrev pub max : F → F → F
  max x y = if lt x y then y else x

  abbrev pub min : F → F → F
  min x y = if lt y x then y else x

  -- `round(min(max(x, 0.0), 1.0), k)`
  pub clamp : F → ℕ → F
  clamp x k = r.round (min (max x zero_real) one_real) k

  infix 4 ◌≼◌
  abbrev pub ◌≼◌ : F → F → Type 0
  x ≼ y = r.le x y ≡ true

pub record IsReal (F : Type 0) ⦃r : Real F⦄ : Type 0 where
  pub le_refl : (x : F) → x ≼ x
  pub le_trans : (x y z : F) → x ≼ y → y ≼ z → x ≼ z
  pub le_total : (x y : F) → (x ≼ y) ⊎ (y ≼ x)
  pub zero-le-one : zero_real {F = F} ≼ one_real
  pub round_mono : (x y : F) (k : ℕ) → x ≼ y → r.round x k ≼ r.round y k
  pub round-zero : (k : ℕ) → r.round zero_real k ≡ zero_real
  pub round-one : (k : ℕ) → r.round one_real k ≡ one_real
  pub add_mono : (x x' y y' : F) → x ≼ x' → y ≼ y' → r.add x y ≼ r.add x' y'
  pub mul_mono : (x x' c : F) → zero_real ≼ c → x ≼ x' → r.mul x c ≼ r.mul x' c

-- What holds of the literals and of sums that are not negative.
pub record IsScale (F : Type 0) ⦃r : Real F⦄ : Type 0 where
  pub decimal_nonneg : (n k : ℕ) → zero_real ≼ r.decimal n k
  pub tenths : (n : ℕ) → n ≤ 10 → r.decimal n 1 ≼ one_real
  pub hundredths : (n : ℕ) → n ≤ 100 → r.decimal n 2 ≼ one_real
  pub add_nonneg : (x y : F) → zero_real ≼ x → zero_real ≼ y → zero_real ≼ r.add x y

-- Between 0 and 1.
abbrev pub IsUnit : {F : Type 0} ⦃r : Real F⦄ → F → Type 0
IsUnit x = (zero_real ≼ x) × (x ≼ one_real)

module _ {F : Type 0} ⦃r : Real F⦄ (laws : IsReal F) where
  open laws use {le_refl, le_trans, le_total, zero-le-one, round_mono, round-zero, round-one}

  -- The clamped and rounded value lies between 0 and 1.
  pub clamp_bounds : (x : F) (k : ℕ) → (zero_real ≼ clamp x k) × (clamp x k ≼ one_real)
  unfolding clamp
  clamp_bounds x k =
      let y = min (max x zero_real) one_real in
      let low : zero_real ≼ y = ground (
        arith,
        le_total x zero_real,
        le_refl x,
        le_refl zero_real,
        zero-le-one,
        le_total (max x zero_real) one_real,
      ) in
      let high : y ≼ one_real =
        ground (arith, le_refl one_real, le_total (max x zero_real) one_real) in
      (
        subst (λ z. z ≼ r.round y k) (round-zero k) (round_mono zero_real y k low),
        subst (λ z. r.round y k ≼ z) (round-one k) (round_mono y one_real k high),
      )

  pub round-IsUnit : (x : F) (k : ℕ) → IsUnit x → IsUnit (r.round x k)
  round-IsUnit x k (low, high) = (
    subst (λ z. z ≼ r.round x k) (round-zero k) (round_mono zero_real x k low),
    subst (λ z. r.round x k ≼ z) (round-one k) (round_mono x one_real k high),
  )

  pub zero-IsUnit : IsUnit (zero_real {F = F})
  zero-IsUnit = (le_refl zero_real, zero-le-one)

  pub one-IsUnit : IsUnit (one_real {F = F})
  one-IsUnit = (zero-le-one, le_refl one_real)

  pub min-IsUnit : (x : F) → zero_real ≼ x → IsUnit (min x one_real)
  min-IsUnit x h =
      (ground (arith, h, zero-le-one), ground (arith, le_refl one_real, le_total x one_real))

  pub max-nonneg : (x : F) → zero_real ≼ max x zero_real
  max-nonneg x = ground (arith, le_refl zero_real, le_total x zero_real)

  max_mono : (x y z : F) → x ≼ y → max x z ≼ max y z
  max_mono x y z h = ground (arith, le_refl z, le_trans z x y)

  min_mono : (x y z : F) → x ≼ y → min x z ≼ min y z
  min_mono x y z h = ground (arith, le_refl z, le_trans x y z)

  pub clamp_mono : (x y : F) (k : ℕ) → x ≼ y → clamp x k ≼ clamp y k
  unfolding clamp
  clamp_mono x y k h =
      round_mono _ _ k
        (min_mono (max x zero_real) (max y zero_real) one_real (max_mono x y zero_real h))
