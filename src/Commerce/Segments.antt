-- ===== src/Commerce/Segments.antt =====
-- agents/profiling/segment_classifier.py: the four customer segments and their rule matrix.
use neutail.Base.{
  ◌>>=◌, ℕ, String, Option, none, some, List, [], if◌then◌else◌, ◌==◌, nat_eq, string_eq, pair_eq,
  Outcome, ok, or_raise,
}
use neutail.Base.Text.{Unicode, codes, codes_eq, blank_out, casefold, split, join, is_blank}

pub data Affluence : Type 0 where
  affluent less_affluent : Affluence

pub data Loyalty : Type 0 where
  loyal new_customer : Loyalty

-- `NeuTailSegment`
pub data Segment : Type 0 where
  prestige_champion value_defender aspiring_loyalist price_explorer : Segment

-- `SegmentClassificationError`, by the field that cannot be normalised
pub data ClassificationError : Type 0 where
  unsupported_affluence unsupported_loyalty : ClassificationError

abbrev pub affluence_text : Affluence → String
affluence_text affluent = "Affluent"
affluence_text less_affluent = "Less Affluent"

abbrev pub loyalty_text : Loyalty → String
loyalty_text loyal = "Loyal"
loyalty_text new_customer = "New"

abbrev pub segment_text : Segment → String
segment_text prestige_champion = "Prestige Champion"
segment_text value_defender = "Value Defender"
segment_text aspiring_loyalist = "Aspiring Loyalist"
segment_text price_explorer = "Price Explorer"

-- `_RULES`: the keys are the folded texts of the two bands.
pub rule : Affluence → Loyalty → Segment
rule affluent loyal = prestige_champion
rule less_affluent loyal = value_defender
rule affluent new_customer = aspiring_loyalist
rule less_affluent new_customer = price_explorer

module _ ⦃u : Unicode⦄ where
  -- `_normalize`, for a text or `None`
  normalize : Option String → List ℕ
  normalize none = []
  normalize (some s) =
      if is_blank (codes s)
      then []
      else join (split (casefold (blank_out b'-' (blank_out b'_' (codes s)))))

  -- the aliases of `normalize_affluence`
  affluence_alias : List ℕ → Option Affluence
  affluence_alias t =
      if t == codes "affluent"
      then some affluent
      else if t == codes "less affluent"
      then some less_affluent
      else if t == codes "non affluent"
      then some less_affluent
      else none

  loyalty_alias : List ℕ → Option Loyalty
  loyalty_alias t =
      if t == codes "loyal"
      then some loyal
      else if t == codes "new"
      then some new_customer
      else none

  pub normalize_affluence : Option String → Outcome ClassificationError Affluence
  unfolding normalize affluence_alias
  normalize_affluence value = or_raise (affluence_alias (normalize value)) unsupported_affluence

  unfoldable pub normalize_loyalty : Option String → Outcome ClassificationError Loyalty
  unfolding normalize loyalty_alias
  normalize_loyalty value = or_raise (loyalty_alias (normalize value)) unsupported_loyalty

  unfoldable pub classify_values :
      Option String → Option String → Outcome ClassificationError Segment
  unfolding rule normalize_affluence normalize_loyalty
  classify_values affluence_band loyalty_status = do
    a ← normalize_affluence affluence_band
    l ← normalize_loyalty loyalty_status
    ok (rule a l)
