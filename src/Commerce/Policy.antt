-- ===== src/Commerce/Policy.antt =====
-- services/customer_segmentation_service.py: the loyalty threshold and the segment that follows from it.
use neutail.Base.{
  ◌>>=◌, ℕ, ◌+◌, String, Bool, true, false, not, ◌||◌, Option, none, some, List, [], ◌∷◌, ltb, leb,
  if◌then◌else◌, or_default, ◌==◌, nat_eq, string_eq, pair_eq, Outcome, ok,
}
use neutail.Base.Table.{get, put}
use neutail.Base.Text.{Unicode}
use neutail.Bus.Schema.{OutboxStatus}
use neutail.Commerce.Schema.{Customer, Shop, SegmentTransition}
use neutail.Commerce.Segments.{
  Affluence, Loyalty, Segment, ClassificationError, loyal, new_customer, affluence_text,
  loyalty_text, segment_text, normalize_affluence, normalize_loyalty, classify_values,
}

-- `CustomerSegmentationPolicy`
pub record SegmentationPolicy : Type 0 where
  pub purchase_window_days : ℕ
  pub loyal_purchase_threshold : ℕ
  pub version : String

-- `SegmentationOutcome`
pub record SegmentationOutcome : Type 0 where
  pub transition : SegmentTransition
  pub profile_version : ℕ
  pub outbox_ids : List String

-- The payload of the event that the policy adds to the outbox.
pub record ChangePayload : Type 0 where
  pub customer_id : String
  pub previous_segment : Option String
  pub new_segment : String
  pub previous_loyalty_status : String
  pub new_loyalty_status : String
  pub purchase_count_90d : ℕ
  pub profile_version : ℕ
  pub policy_version : String
  pub source_event_id : String
  pub changed_at : ℕ

-- What a purchase hands to the policy. The two ids are fresh (`uuid4`), and the payload's text is what
-- `json.dumps` makes of it.
pub record Change : Type 0 where
  pub customer_id : String
  pub purchase_count : ℕ
  pub source_event_id : String
  pub trace_id : String
  pub changed_at : ℕ
  pub history_id : String
  pub outbox_id : String
  pub payload_json : ChangePayload → String

-- `max(version or 1, 1) + 1`
abbrev pub next_version : Option ℕ → ℕ
next_version v = (if ltb (or_default 1 v) 1 then 1 else or_default 1 v) + 1

-- A new customer with enough purchases becomes loyal.
unfoldable pub promoted : SegmentationPolicy → Loyalty → ℕ → Loyalty
promoted policy loyal count = loyal
promoted policy new_customer count =
    if leb policy.loyal_purchase_threshold count then loyal else new_customer

-- `previous_segment != new_segment`
abbrev pub is_other_segment : Option String → Segment → Bool
is_other_segment none new = true
is_other_segment (some s) new = not (s == segment_text new)

-- `previous_loyalty != new_loyalty`
abbrev pub is_other_loyalty : Loyalty → Loyalty → Bool
is_other_loyalty loyal loyal = false
is_other_loyalty new_customer new_customer = false
is_other_loyalty _ _ = true

-- `payload`
abbrev pub payload_of : Change → SegmentTransition → ℕ → ChangePayload
payload_of c t version = record {
  customer_id = c.customer_id;
  previous_segment = t.previous_segment;
  new_segment = t.new_segment;
  previous_loyalty_status = t.previous_loyalty_status;
  new_loyalty_status = t.new_loyalty_status;
  purchase_count_90d = c.purchase_count;
  profile_version = version;
  policy_version = t.policy_version;
  source_event_id = c.source_event_id;
  changed_at = c.changed_at;
}

module _ {F : Type 0} where
  -- The loyalty row of the customer, if there is one.
  unfoldable pub touch_loyalty : Change → Shop F → Shop F
  touch_loyalty c db = elim (get c.customer_id db.loyalty) [
    | none ↦ db
    | some l ↦ record db {
      loyalty =
          put c.customer_id
            (record l { version = some (next_version l.version); updated_at = some c.changed_at })
            db.loyalty;
    }
  ]

  unfoldable pub add_history : Change → SegmentTransition → Affluence → Shop F → Shop F
  add_history c t band db =
      if t.changed
      then record db {
        history =
            put c.history_id
              (record {
                customer_id = c.customer_id;
                previous_segment = t.previous_segment;
                new_segment = t.new_segment;
                previous_loyalty_status = t.previous_loyalty_status;
                new_loyalty_status = t.new_loyalty_status;
                affluence_band = affluence_text band;
                purchase_count_90d = c.purchase_count;
                policy_version = t.policy_version;
                source_event_id = c.source_event_id;
                changed_at = c.changed_at;
              })
              db.history;
      }
      else db

  unfoldable pub add_outbox : Change → SegmentTransition → ℕ → Shop F → Shop F
  add_outbox c t version db = record db {
    outbox =
        put c.outbox_id
          (record {
            outbox_id = c.outbox_id;
            event_type =
                if t.changed then "CUSTOMER_SEGMENT_CHANGED" else "CUSTOMER_PROFILE_UPDATED";
            aggregate_id = c.customer_id;
            payload_json = c.payload_json (payload_of c t version);
            trace_id = c.trace_id;
            causation_id = c.source_event_id;
            correlation_id = c.trace_id;
            status = OutboxStatus.pending;
            attempt_count = 0;
            created_at = c.changed_at;
            published_at = none;
          })
          db.outbox;
  }

  -- The writes, once the new loyalty and segment are known.
  unfoldable pub write_change :
      SegmentationPolicy
      → Change
      → Customer
      → Loyalty
      → Loyalty
      → Affluence
      → Segment
      → Shop F
      → Shop F × SegmentationOutcome
  unfolding touch_loyalty add_history add_outbox
  write_change policy c customer before after band segment db =
      let t : SegmentTransition = record {
        previous_segment = customer.segment;
        new_segment = segment_text segment;
        previous_loyalty_status = loyalty_text before;
        new_loyalty_status = loyalty_text after;
        changed = is_other_segment customer.segment segment || is_other_loyalty before after;
        changed_at = c.changed_at;
        policy_version = policy.version;
      } in
      let version = next_version customer.profile_version in
      let customer' = record customer {
        loyalty_status = some (loyalty_text after);
        segment = some (segment_text segment);
        profile_version = some version;
        updated_at = some c.changed_at;
      } in
      let db' = record db { customers = put c.customer_id customer' db.customers } in
      (
        add_outbox c t version (add_history c t band (touch_loyalty c db')),
        record { transition = t; profile_version = version; outbox_ids = c.outbox_id ∷ [] },
      )

  unfoldable pub apply_purchase_policy :
      ⦃u : Unicode⦄
      → SegmentationPolicy
      → Change
      → Customer
      → Shop F
      → Outcome ClassificationError (Shop F × SegmentationOutcome)
  unfolding write_change promoted
  apply_purchase_policy policy c customer db = do
    before ← normalize_loyalty customer.loyalty_status
    let after = promoted policy before c.purchase_count
    segment ← classify_values customer.affluence_band (some (loyalty_text after))
    band ← normalize_affluence customer.affluence_band
    ok (write_change policy c customer before after band segment db)
