-- ===== src/Base/Errors.antt =====
-- Code that may raise. An exception of type `E` is a value; a block that runs in one database
-- transaction returns the new rows beside its result, so that a raise leaves the old rows.
use mathlib.Core.Path.{◌≡◌, refl}
use mathlib.Core.Bool.{Bool, true, false}
use mathlib.Core.Option.{Option, none, some}

pub data Outcome {ℓ κ} (E : Type ℓ) (A : Type κ) : Type (ℓ ⊔ κ) where
  ok : A → Outcome E A
  raised : E → Outcome E A

infixl 5 ◌>>=◌ ◌>>◌
abbrev pub ◌>>=◌ {ℓ κ μ} :
    {E : Type ℓ} {A : Type κ} {B : Type μ} → Outcome E A → (A → Outcome E B) → Outcome E B
ok a >>= f = f a
raised e >>= f = raised e

abbrev pub ◌>>◌ {ℓ κ} : {E : Type ℓ} {B : Type κ} → Outcome E (Unit {0}) → Outcome E B → Outcome E B
m >> k = m >>= λ _. k

-- `if not test: raise e`
abbrev pub require {ℓ} : {E : Type ℓ} → Bool → E → Outcome E (Unit {0})
require true e = ok tt
require false e = raised e

-- The value, or `e` where there is none.
abbrev pub or_raise {ℓ κ} : {E : Type ℓ} {A : Type κ} → Option A → E → Outcome E A
or_raise (some a) e = ok a
or_raise none e = raised e

-- What a block that does not raise went through.
pub >>=_inv {ℓ κ μ} :
    {E : Type ℓ} {A : Type κ} {B : Type μ} (first : Outcome E A) (rest : A → Outcome E B) (b : B)
    → first >>= rest ≡ ok b
    → (a : A) × (first ≡ ok a) × (rest a ≡ ok b)
>>=_inv (raised e) rest b h = cc
>>=_inv (ok a) rest b h = (a, refl, h)

-- Equal results have equal values.
pub ok-injective {ℓ κ} :
    {E : Type ℓ} {A : Type κ} (a b : A) → ◌≡◌ {A = Outcome E A} (ok a) (ok b) → a ≡ b
ok-injective a b h = cc

pub or_raise_inv {ℓ κ μ} :
    {E : Type ℓ} {A : Type κ} {B : Type μ} (o : Option A) (e : E) (rest : A → Outcome E B) (b : B)
    → or_raise o e >>= rest ≡ ok b
    → (a : A) × (o ≡ some a) × (rest a ≡ ok b)
or_raise_inv none e rest b h = cc
or_raise_inv (some a) e rest b h = (a, refl, h)
