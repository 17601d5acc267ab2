-- ===== src/Discovery/Lexical.antt =====
-- Comparisons in turn: the next one decides where the one before ties.
use neutail.Base.{◌≡◌, ◌⊎◌, Bool, true, not, ◌&&◌, ◌||◌, arith, nat_eq, string_eq, pair_eq}

abbrev pub IsTotal {ℓ} : {A : Type ℓ} → (A → A → Bool) → Type ℓ
IsTotal {A} le = (x y : A) → (le x y ≡ true) ⊎ (le y x ≡ true)

abbrev pub IsTransitive {ℓ} : {A : Type ℓ} → (A → A → Bool) → Type ℓ
IsTransitive {A} le = (x y z : A) → le x y ≡ true → le y z ≡ true → le x z ≡ true

module _ {ℓ} {A : Type ℓ} (le rest : A → A → Bool) where
  abbrev pub lexical : A → A → Bool
  lexical a b = le a b && (not (le b a) || rest a b)

  pub lexical-IsTotal : IsTotal le → IsTotal rest → IsTotal lexical
  lexical-IsTotal t t' x y = ground (arith, t x y, t' x y)

  pub lexical-IsTransitive : IsTransitive le → IsTransitive rest → IsTransitive lexical
  lexical-IsTransitive t t' x y z h k = ground (arith, h, k, t x y z, t y z x, t z x y, t' x y z)

  pub lexical-ties :
      (a b : A) → lexical a b ≡ true → lexical b a ≡ true → (rest a b ≡ true) × (rest b a ≡ true)
  lexical-ties a b h k = (ground (arith, h, k), ground (arith, h, k))
