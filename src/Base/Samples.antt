-- ===== src/Base/Samples.antt =====
-- A JSON codec for one type of values, at which the laws of `IsJson` hold.
use neutail.Base.Text.{IsUnicode, Unicode}
use Prim.Native.Nat.{◌^◌}
use neutail.Base.Real.{IsScale, Real, IsReal, zero_real, one_real, ◌≼◌}
use neutail.Base.Real.{IsReal, Real}
use text.Mathlib.TextEquality.{eq_iff}
use neutail.Base.{
  nat_eq, ◌||◌, ◌&&◌, [], ◌∷◌, leb, leb→le, le→leb, ◌≤◌, nat_beq, ◌/◌, ◌*◌, ◌-◌, ◌+◌, arith, ℕ,
  string_eq, none, some, ◌==◌, String, ◌≢◌, ◌≡◌, if◌then◌else◌, Bool,
}
use mathlib.Core.Path.{refl}
use mathlib.Core.Bool.{true, false, false≢true}
use neutail.Base.Json.{Json, IsJson}

abbrev print_flag : Bool → String
print_flag true = "true"
print_flag false = "false"

instance abbrev pub flag_json : Json Bool
flag_json = record {
  dumps = print_flag;
  loads = λ t. if t == "true" then some true else if t == "false" then some false else none;
}

flag_ne_empty : (v : Bool) → print_flag v ≢ ""
flag_ne_empty true e = false≢true ((eq_iff "true" "").1 e)
flag_ne_empty false e = false≢true ((eq_iff "false" "").1 e)

flag_reads : (v : Bool) → flag_json.loads (print_flag v) ≡ some v
flag_reads true = refl
flag_reads false = refl

pub flag-IsJson : IsJson Bool
flag-IsJson = record { dumps-ne-empty = flag_ne_empty; loads-dumps = flag_reads }

-- Millionths, at which the laws of `IsReal` hold: a difference stops at 0, and rounding is to
-- thousandths or does nothing.
instance abbrev pub micro_real : Real ℕ
micro_real = record {
  add = λ a b. a + b;
  sub = λ a b. a - b;
  mul = λ a b. a * b / 1_000_000;
  div = λ a b. a * 1_000_000 / b;
  of_nat = λ n. n * 1_000_000;
  decimal = λ n k. n * 1_000_000 / 10 ^ k;
  round = λ x k. if nat_beq k 3 then (x + 500) / 1000 * 1000 else x;
  le = leb;
}

micro_mul_mono : (x x' c : ℕ) → x ≤ x' → x * c / 1_000_000 ≤ x' * c / 1_000_000
micro_mul_mono x x' c h = grind arith

micro_round_mono : (x y k : ℕ) → x ≼ y → micro_real.round x k ≼ micro_real.round y k
micro_round_mono x y k h = ground arith

micro_round-zero : (k : ℕ) → micro_real.round zero_real k ≡ zero_real
micro_round-zero k = ground arith

micro_round-one : (k : ℕ) → micro_real.round one_real k ≡ one_real
micro_round-one k = ground arith

micro_refl : (x : ℕ) → x ≼ x
micro_refl x = ground arith

pub micro-IsReal : IsReal ℕ
micro-IsReal = record {
  le_refl = micro_refl;
  le_trans = λ x y z p q. ground arith;
  le_total = λ x y. ground arith;
  zero-le-one = refl;
  round_mono = micro_round_mono;
  round-zero = micro_round-zero;
  round-one = micro_round-one;
  add_mono = λ x x' y y' p q. ground arith;
  mul_mono = λ x x' c h p. le→leb _ _ (micro_mul_mono x x' c (leb→le _ _ p));
}

micro_tenths : (n : ℕ) → n ≤ 10 → micro_real.decimal n 1 ≼ one_real
micro_tenths n h = le→leb (n * 1_000_000 / 10) 1_000_000 (omega (arith, h))

micro_hundredths : (n : ℕ) → n ≤ 100 → micro_real.decimal n 2 ≼ one_real
micro_hundredths n h = le→leb (n * 1_000_000 / 100) 1_000_000 (omega (arith, h))

micro_nonneg : (x : ℕ) → zero_real ≼ x
micro_nonneg x = le→leb 0 x (omega arith)

pub micro-IsScale : IsScale ℕ
micro-IsScale = record {
  decimal_nonneg = λ n k. micro_nonneg (n * 1_000_000 / 10 ^ k);
  tenths = micro_tenths;
  hundredths = micro_hundredths;
  add_nonneg = λ x y p q. micro_nonneg (x + y);
}

-- Unicode's tables on ASCII.
instance abbrev pub ascii : Unicode
ascii = record {
  fold = λ c. (if leb b'A' c && leb c b'Z' then c + 32 else c) ∷ [];
  upper = λ c. (if leb b'a' c && leb c b'z' then c - 32 else c) ∷ [];
  is_space = λ c. c == 32 || (leb 9 c && leb c 13);
}

fold_letter : (c : ℕ) → b'A' ≤ c → c ≤ b'Z' → ascii.fold c ≡ (c + 32) ∷ []
fold_letter c h k = ground arith

pub ascii-IsUnicode : IsUnicode
ascii-IsUnicode = record {
  fold-upper = fold_letter;
  fold-lower = λ c h k. ground arith;
  upper-not-space = λ c h k. ground arith;
  lower-not-space = λ c h k. ground arith;
}
