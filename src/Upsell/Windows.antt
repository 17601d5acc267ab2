-- ===== src/Upsell/Windows.antt =====
-- services/upsell_policy_service.py: the queries over a customer's service engagements.
use neutail.Base.{
  ℕ, ◌+◌, ◌-◌, ◌/◌, String, Bool, true, false, ◌&&◌, Option, none, some, List, [], ◌∷◌, ltb, leb,
  if◌then◌else◌, ◌==◌, nat_eq, string_eq, pair_eq,
}
use neutail.Base.Lists.{any, select, contains, length}
use neutail.Commerce.{days}
use neutail.Upsell.Schema.{PolicyConfig, Engagement}

-- `func.datetime(t) >= sqlite_datetime(cutoff)` and `func.datetime(t) <= sqlite_datetime(now)`: SQLite
-- writes `t` to the second, the program writes the bounds to the microsecond, and the texts are
-- compared, so that in one second `t` comes first.
unfoldable pub in_window : ℕ → ℕ → Option ℕ → Bool
in_window cutoff now none = false
in_window cutoff now (some t) =
    ltb (cutoff / 1_000_000) (t / 1_000_000) && leb (t / 1_000_000) (now / 1_000_000)

-- `column == value` and `column.in_(values)`
abbrev pub equals_text : String → Option String → Bool
equals_text v none = false
equals_text v (some s) = s == v

abbrev pub is_one_of : List String → Option String → Bool
is_one_of vs none = false
is_one_of vs (some s) = contains s vs

-- `column.is_(True)`
abbrev pub is_set : Option Bool → Bool
is_set none = false
is_set (some b) = b

abbrev pub later : Option ℕ → Option ℕ → Option ℕ
later none o = o
later (some t) none = some t
later (some t) (some v) = if ltb t v then some v else some t

abbrev pub earlier : Option ℕ → Option ℕ → Option ℕ
earlier none o = o
earlier (some t) none = some t
earlier (some t) (some v) = if ltb v t then some v else some t

-- `max` and `min` of a column, over the rows that have it
unfoldable pub latest : List Engagement → Option ℕ
latest [] = none
latest (e ∷ rest) = later e.event_datetime (latest rest)

unfoldable pub earliest : List Engagement → Option ℕ
earliest [] = none
earliest (e ∷ rest) = earlier e.event_datetime (earliest rest)

unfoldable pub has_active_style_plus : String → List Engagement → Bool
has_active_style_plus customer_id = any (λ e.
    equals_text customer_id e.customer_id
    && equals_text "STYLE_PLUS" e.service_type
    && is_one_of ("ACCEPTED" ∷ "COMPLETED" ∷ "OFFER_ACCEPTED" ∷ []) e.outcome)

module _ {F : Type 0} (config : PolicyConfig F) (customer_id : String) (now : ℕ) where
  unfoldable pub has_explicit_suppression : List Engagement → Bool
  has_explicit_suppression = any (λ e.
      equals_text customer_id e.customer_id
      && is_set e.offer_suppressed
      && in_window (now - days config.explicit_suppression_days) now e.event_datetime)

  abbrev pub is_recent_decline : Engagement → Bool
  is_recent_decline e =
      equals_text customer_id e.customer_id
      && is_one_of ("STYLE_PLUS" ∷ "STYLE_PLUS_TRIAL" ∷ []) e.service_type
      && is_one_of ("DECLINED" ∷ "OFFER_DECLINED" ∷ []) e.outcome
      && in_window (now - days config.style_plus_decline_cooldown_days) now e.event_datetime

  unfoldable pub last_style_plus_decline : List Engagement → Option ℕ
  last_style_plus_decline engagements = latest (select is_recent_decline engagements)

  abbrev pub counted_outcomes : List String
  counted_outcomes =
      "VIEWED" ∷ "ACCEPTED" ∷ "COMPLETED" ∷ "DECLINED" ∷ "DISMISSED" ∷ "OFFER_SHOWN"
      ∷ "OFFER_ACCEPTED" ∷ "OFFER_DECLINED" ∷ "OFFER_DISMISSED" ∷ []

  abbrev pub is_counted : Engagement → Bool
  is_counted e =
      equals_text customer_id e.customer_id
      && is_one_of counted_outcomes e.outcome
      && in_window (now - days config.service_offer_window_days) now e.event_datetime

  -- `first_at + window`, where the limit is reached
  abbrev pub reset_after : Bool → Option ℕ → Option ℕ
  reset_after true (some first_at) = some (first_at + days config.service_offer_window_days)
  reset_after _ _ = none

  unfoldable pub frequency_reset_at : List Engagement → Option ℕ
  frequency_reset_at engagements =
      let shown = select is_counted engagements in
      reset_after (leb config.max_service_offers_30d (length shown)) (earliest shown)
