-- ===== src/Base/Text.antt =====
-- The text operations of Python that the program normalises values with, over code points. What a code
-- point folds to, its upper case and which are white space are tables of Unicode, and parameters.
use neutail.Base.{
  ◌||◌, ◌∙◌, ap, ℕ, ◌+◌, ◌≤◌, String, ◌≡◌, refl, ◌↔◌, Bool, true, false, ◌&&◌, List, [], ◌∷◌, ◌++◌,
  arith, nat_beq, if◌then◌else◌, Eq, nat_eq, string_eq, pair_eq,
}
use Prim.Native.Char.{code}

pub record Unicode : Type 0 where
  pub fold : ℕ → List ℕ
  pub upper : ℕ → List ℕ
  pub is_space : ℕ → Bool

-- The code points of a text.
abbrev pub codes : String → List ℕ
codes String.[] = []
codes (String.◌∷◌ c s) = code c ∷ codes s

abbrev pub same_codes : List ℕ → List ℕ → Bool
same_codes [] [] = true
same_codes (a ∷ x) (b ∷ y) = nat_beq a b && same_codes x y
same_codes _ _ = false

pub same_codes_iff : (x y : List ℕ) → (same_codes x y ≡ true) ↔ (x ≡ y)
same_codes_iff [] [] = (λ h. refl, λ h. refl)
same_codes_iff [] (b ∷ y) = (λ h. cc, λ h. cc)
same_codes_iff (a ∷ x) [] = (λ h. cc, λ h. cc)
same_codes_iff (a ∷ x) (b ∷ y) =
    (λ h. ground (arith, same_codes_iff x y), λ h. ground (arith, same_codes_iff x y))

instance abbrev pub codes_eq : Eq (List ℕ)
codes_eq = record { beq = same_codes; beq_iff = same_codes_iff }

-- `value.startswith(prefix)`, and `term in value`
unfoldable pub starts_with : List ℕ → List ℕ → Bool
starts_with [] s = true
starts_with (p ∷ ps) [] = false
starts_with (p ∷ ps) (c ∷ s) = nat_beq c p && starts_with ps s

unfoldable pub has_infix : List ℕ → List ℕ → Bool
unfolding starts_with
has_infix p [] = starts_with p []
has_infix p (c ∷ s) = starts_with p (c ∷ s) || has_infix p s

-- `value.replace(" ", "_")`
unfoldable pub underscored : List ℕ → List ℕ
underscored [] = []
underscored (c ∷ s) = (if nat_beq c b' ' then b'_' else c) ∷ underscored s

-- `value.replace(a, " ")` for one character
unfoldable pub blank_out : ℕ → List ℕ → List ℕ
blank_out a [] = []
blank_out a (c ∷ s) = (if nat_beq c a then b' ' else c) ∷ blank_out a s

module _ ⦃u : Unicode⦄ where
  unfoldable pub casefold : List ℕ → List ℕ
  casefold [] = []
  casefold (c ∷ s) = u.fold c ++ casefold s

  unfoldable pub uppercase : List ℕ → List ℕ
  uppercase [] = []
  uppercase (c ∷ s) = u.upper c ++ uppercase s

  -- The words behind `word`, which is read backwards.
  split_from : List ℕ → List ℕ → List (List ℕ)
  split_from word [] = if same_codes word [] then [] else word ∷ []
  split_from word (c ∷ s) =
      let next = split_from [] s in
      let longer = split_from (word ++ c ∷ []) s in
      if u.is_space c then (if same_codes word [] then next else word ∷ next) else longer

  -- `value.split()`
  unfoldable pub split : List ℕ → List (List ℕ)
  unfolding split_from
  split = split_from []

  -- `not value.strip()`
  unfoldable pub is_blank : List ℕ → Bool
  is_blank [] = true
  is_blank (c ∷ s) = u.is_space c && is_blank s

-- `value.strip()`, from either end
module _ ⦃u : Unicode⦄ where
  strip_start : List ℕ → List ℕ
  strip_start [] = []
  strip_start (c ∷ s) = let rest = strip_start s in if u.is_space c then rest else c ∷ s

  strip_end : List ℕ → List ℕ
  unfolding is_blank
  strip_end [] = []
  strip_end (c ∷ s) = if is_blank (c ∷ s) then [] else c ∷ strip_end s

  unfoldable pub strip : List ℕ → List ℕ
  unfolding strip_start strip_end
  strip s = strip_end (strip_start s)

  is_blank-strip_end : (s : List ℕ) → is_blank (strip_end s) ≡ is_blank s
  unfolding strip_end is_blank
  is_blank-strip_end [] = refl
  is_blank-strip_end (c ∷ s) = ground (arith, is_blank-strip_end s)

  strip_end-strip_end : (s : List ℕ) → strip_end (strip_end s) ≡ strip_end s
  unfolding strip_end is_blank
  strip_end-strip_end [] = refl
  strip_end-strip_end (c ∷ s) = ground (arith, strip_end-strip_end s, is_blank-strip_end s)

  strip_start-strip :
      (s : List ℕ) → strip_start (strip_end (strip_start s)) ≡ strip_end (strip_start s)
  unfolding strip_start strip_end is_blank
  strip_start-strip [] = refl
  strip_start-strip (c ∷ s) = ground (arith, strip_start-strip s)

  pub strip-strip : (s : List ℕ) → strip (strip s) ≡ strip s
  unfolding strip
  strip-strip s = ap strip_end (strip_start-strip s) ∙ strip_end-strip_end (strip_start s)

-- `" ".join(words)`
unfoldable pub join : List (List ℕ) → List ℕ
join [] = []
join (w ∷ []) = w
join (w ∷ v ∷ rest) = w ++ b' ' ∷ join (v ∷ rest)

-- The tables on ASCII letters and the blank.
pub record IsUnicode ⦃u : Unicode⦄ : Type 0 where
  pub fold-upper : (c : ℕ) → b'A' ≤ c → c ≤ b'Z' → u.fold c ≡ (c + 32) ∷ []
  pub fold-lower : (c : ℕ) → b'a' ≤ c → c ≤ b'z' → u.fold c ≡ c ∷ []
  pub upper-not-space : (c : ℕ) → b'A' ≤ c → c ≤ b'Z' → u.is_space c ≡ false
  pub lower-not-space : (c : ℕ) → b'a' ≤ c → c ≤ b'z' → u.is_space c ≡ false
