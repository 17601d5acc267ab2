-- ===== src/Commerce/Loyalty.antt =====
-- What the purchase policy does to a customer's row, loyalty and segment.
use text.Mathlib.TextEquality.{eq_iff}
use neutail.Base.Table.{get-put_self, get}
use neutail.Bus.Schema.{OutboxStatus, OutboxEvent}
use neutail.Commerce.Schema.{SegmentTransition, Shop, Customer}
use neutail.Commerce.Policy.{
  is_other_loyalty, is_other_segment, payload_of, next_version, touch_loyalty, add_history,
  add_outbox, write_change, apply_purchase_policy, SegmentationOutcome, Change, SegmentationPolicy,
  promoted,
}
use neutail.Base.{
  ◌||◌, String, Option, false, ℕ, ◌≤◌, ◌<◌, ◌≡◌, refl, ◌↔◌, ◌⊎◌, inl, inr, none, some, arith,
  if◌then◌else◌, or_default, nat_eq, string_eq, pair_eq, Outcome, ok, raised,
}
use mathlib.Core.Path.{subst}
use neutail.Base.Text.{Unicode, IsUnicode, blank_out, casefold, split, join, is_blank}
use neutail.Commerce.Segments.{
  ClassificationError, segment_text, Affluence, Segment, Loyalty, loyal, new_customer, loyalty_text,
  normalize_loyalty, normalize_affluence, classify_values,
}

promoted-loyal_iff :
    (policy : SegmentationPolicy) (before : Loyalty) (count : ℕ)
    → (promoted policy before count ≡ loyal)
      ↔ ((before ≡ loyal) ⊎ (policy.loyal_purchase_threshold ≤ count))
unfolding promoted
promoted-loyal_iff policy loyal count = (λ h. inl refl, λ h. refl)
promoted-loyal_iff policy new_customer count = (λ h. inr (ground arith), λ h. ground arith)

-- A change of neither the segment nor the loyalty.
is_other_iff :
    (s : Option String) (segment : Segment) (before after : Loyalty)
    → ((is_other_segment s segment || is_other_loyalty before after) ≡ false)
      ↔ ((s ≡ some (segment_text segment)) × (before ≡ after))
is_other_iff none segment before after = (λ h. cc, λ h. cc)
is_other_iff (some s) segment loyal loyal = (
  λ h. (ground (arith, h, eq_iff s (segment_text segment)), refl),
  λ h. ground (arith, h, eq_iff s (segment_text segment)),
)
is_other_iff (some s) segment new_customer new_customer = (
  λ h. (ground (arith, h, eq_iff s (segment_text segment)), refl),
  λ h. ground (arith, h, eq_iff s (segment_text segment)),
)
is_other_iff (some s) segment loyal new_customer = (λ h. ground (arith, h), λ h. cc (h.1))
is_other_iff (some s) segment new_customer loyal = (λ h. ground (arith, h), λ h. cc (h.1))

-- The outbox row that the policy adds.
event_of : Change → SegmentTransition → ℕ → OutboxEvent
event_of c t version = record {
  outbox_id = c.outbox_id;
  event_type = if t.changed then "CUSTOMER_SEGMENT_CHANGED" else "CUSTOMER_PROFILE_UPDATED";
  aggregate_id = c.customer_id;
  payload_json = c.payload_json (payload_of c t version);
  trace_id = c.trace_id;
  causation_id = c.source_event_id;
  correlation_id = c.trace_id;
  status = OutboxStatus.pending;
  attempt_count = 0;
  created_at = c.changed_at;
  published_at = none;
}

-- The customer's row that the policy writes.
customer_of : Change → Customer → Loyalty → Segment → Customer
customer_of c customer after segment = record customer {
  loyalty_status = some (loyalty_text after);
  segment = some (segment_text segment);
  profile_version = some (next_version customer.profile_version);
  updated_at = some c.changed_at;
}

module _ {F : Type 0} where
  customers-add_history :
      (c : Change) (t : SegmentTransition) (band : Affluence) (db : Shop F)
      → (add_history c t band db).customers ≡ db.customers
  unfolding add_history
  customers-add_history c t band db = ground arith

  outbox-add_history :
      (c : Change) (t : SegmentTransition) (band : Affluence) (db : Shop F)
      → (add_history c t band db).outbox ≡ db.outbox
  unfolding add_history
  outbox-add_history c t band db = ground arith

  customers-touch_loyalty :
      (c : Change) (db : Shop F) → (touch_loyalty c db).customers ≡ db.customers
  unfolding touch_loyalty
  customers-touch_loyalty c db = ground arith

  write_change-row :
      (policy : SegmentationPolicy) (c : Change) (customer : Customer) (before after : Loyalty)
      (band : Affluence) (segment : Segment) (db : Shop F)
      → get c.customer_id (write_change policy c customer before after band segment db).0.customers
        ≡ some (customer_of c customer after segment)
  unfolding write_change add_outbox customer_of
  write_change-row policy c customer before after band segment db =
      rw (customers-add_history, customers-touch_loyalty)
        (get-put_self c.customer_id _ db.customers)

  write_change-event :
      (policy : SegmentationPolicy) (c : Change) (customer : Customer) (before after : Loyalty)
      (band : Affluence) (segment : Segment) (db : Shop F)
      → let p = write_change policy c customer before after band segment db in
        get c.outbox_id p.0.outbox ≡ some (event_of c p.1.transition p.1.profile_version)
  unfolding write_change add_outbox event_of
  write_change-event policy c customer before after band segment db = get-put_self c.outbox_id _ _

module _ ⦃u : Unicode⦄ where
  -- What an application of the policy goes by: the customer's old loyalty and band, and the new segment.
  record IsRead (policy : SegmentationPolicy) (c : Change) (customer : Customer) (before : Loyalty)
      (segment : Segment) (band : Affluence) : Type 0 where
    old : normalize_loyalty customer.loyalty_status ≡ ok before
    new :
        classify_values customer.affluence_band
          (some (loyalty_text (promoted policy before c.purchase_count)))
        ≡ ok segment
    band_eq : normalize_affluence customer.affluence_band ≡ ok band

  -- The rows after the policy.
  pub record IsApplied (F : Type 0) (policy : SegmentationPolicy) (c : Change)
      (customer customer' : Customer) (before after : Loyalty) (segment : Segment)
      (event : OutboxEvent) (db' : Shop F) (o : SegmentationOutcome) : Type 0 where
    pub row : get c.customer_id db'.customers ≡ some customer'
    pub old : normalize_loyalty customer.loyalty_status ≡ ok before
    pub loyalty : normalize_loyalty customer'.loyalty_status ≡ ok after
    pub loyal_iff :
        (after ≡ loyal) ↔ ((before ≡ loyal) ⊎ (policy.loyal_purchase_threshold ≤ c.purchase_count))
    pub classified : classify_values customer'.affluence_band customer'.loyalty_status ≡ ok segment
    pub stored_segment : customer'.segment ≡ some (segment_text segment)
    pub version : customer'.profile_version ≡ some o.profile_version
    pub newer : or_default 1 customer.profile_version < o.profile_version
    pub changed_iff :
        (o.transition.changed ≡ false)
        ↔ ((customer.segment ≡ some (segment_text segment)) × (before ≡ after))
    pub published : get c.outbox_id db'.outbox ≡ some event
    pub waiting : event.status ≡ OutboxStatus.pending
    pub kind :
        event.event_type
        ≡ (if o.transition.changed then "CUSTOMER_SEGMENT_CHANGED" else "CUSTOMER_PROFILE_UPDATED")

  IsRead-inv :
      {F : Type 0} (policy : SegmentationPolicy) (c : Change) (customer : Customer)
      (db db' : Shop F) (o : SegmentationOutcome)
      → apply_purchase_policy policy c customer db ≡ ok (db', o)
      → (before : Loyalty) × (segment : Segment) × (band : Affluence) × IsRead policy c customer
          before segment band
        × (write_change policy c customer before
              (promoted policy before c.purchase_count)
              band
              segment
              db
            ≡ (db', o))
  unfolding apply_purchase_policy
  IsRead-inv {F} policy c customer db db' o h =
      on_loyalty (normalize_loyalty customer.loyalty_status) refl
    where
      Found : Type 0
      Found =
          (before : Loyalty) × (segment : Segment) × (band : Affluence) × IsRead policy c customer
            before segment band
          × (write_change policy c customer before (promoted policy before c.purchase_count) band
                segment db
              ≡ (db', o))

      on_segment :
          (before : Loyalty)
          → normalize_loyalty customer.loyalty_status ≡ ok before
          → (s : Outcome ClassificationError Segment)
          → classify_values customer.affluence_band
              (some (loyalty_text (promoted policy before c.purchase_count)))
            ≡ s
          → (b : Outcome ClassificationError Affluence)
          → normalize_affluence customer.affluence_band ≡ b
          → Found
      on_segment before q (raised e) q' b q'' = cc (rw (q, q') at h)
      on_segment before q (ok s) q' (raised e) q'' = cc (rw (q, q', q'') at h)
      on_segment before q (ok s) q' (ok b) q'' = (
        before,
        s,
        b,
        record { old = q; new = q'; band_eq = q'' },
        ground (arith, rw (q, q', q'') at h),
      )

      on_loyalty :
          (l : Outcome ClassificationError Loyalty)
          → normalize_loyalty customer.loyalty_status ≡ l
          → Found
      on_loyalty (raised e) q = cc (rw q at h)
      on_loyalty (ok l) q = on_segment l q _ refl _ refl

module _ ⦃u : Unicode⦄ (laws : IsUnicode) where
  open laws use {fold-upper, fold-lower, upper-not-space, lower-not-space}

  -- The text that is stored for a loyalty status normalises to it.
  normalize-loyalty_text : (l : Loyalty) → normalize_loyalty (some (loyalty_text l)) ≡ ok l
  unfolding normalize_loyalty is_blank blank_out casefold split join
  normalize-loyalty_text loyal =
      rw
        (
          upper-not-space b'L' (omega arith) (omega arith),
          fold-upper b'L' (omega arith) (omega arith),
          fold-lower b'o' (omega arith) (omega arith),
          fold-lower b'y' (omega arith) (omega arith),
          fold-lower b'a' (omega arith) (omega arith),
          fold-lower b'l' (omega arith) (omega arith),
        )
        (rw (
          lower-not-space b'l' (omega arith) (omega arith),
          lower-not-space b'a' (omega arith) (omega arith),
          lower-not-space b'y' (omega arith) (omega arith),
          lower-not-space b'o' (omega arith) (omega arith),
        ))
  normalize-loyalty_text new_customer =
      rw
        (
          upper-not-space b'N' (omega arith) (omega arith),
          fold-upper b'N' (omega arith) (omega arith),
          fold-lower b'e' (omega arith) (omega arith),
          fold-lower b'w' (omega arith) (omega arith),
        )
        (rw (
          lower-not-space b'w' (omega arith) (omega arith),
          lower-not-space b'e' (omega arith) (omega arith),
          lower-not-space b'n' (omega arith) (omega arith),
        ))

  -- If the policy applies, the stored loyalty is the old one, or Loyal exactly if the customer was
  -- loyal or has enough purchases; the stored segment is the one that the stored values classify to;
  -- the profile's version is raised; and a pending event under the fresh id says that the segment
  -- changed unless neither the segment nor the loyalty did.
  pub apply_purchase_policy-IsApplied :
      {F : Type 0} (policy : SegmentationPolicy) (c : Change) (customer : Customer)
      (db db' : Shop F) (o : SegmentationOutcome)
      → apply_purchase_policy policy c customer db ≡ ok (db', o)
      → (customer' : Customer) × (before : Loyalty) × (after : Loyalty) × (segment : Segment)
        × (event : OutboxEvent) × IsApplied F policy c customer customer' before after segment event
            db' o
  unfolding write_change event_of customer_of
  apply_purchase_policy-IsApplied {F} policy c customer db db' o h =
      let (before, segment, band, read, w) = IsRead-inv policy c customer db db' o h in
      let after = promoted policy before c.purchase_count in
      let p = write_change policy c customer before after band segment db in
      (
        customer_of c customer after segment,
        before,
        after,
        segment,
        event_of c o.transition o.profile_version,
        subst
            (λ (q : Shop F × SegmentationOutcome).
              IsApplied F policy c customer (customer_of c customer after segment) before after
                segment (event_of c q.1.transition q.1.profile_version) q.0 q.1)
            w
            (record {
              row = write_change-row policy c customer before after band segment db;
              old = read.old;
              loyalty = normalize-loyalty_text after;
              loyal_iff = promoted-loyal_iff policy before c.purchase_count;
              classified = read.new;
              stored_segment = refl;
              version = refl;
              newer = ground arith;
              changed_iff = is_other_iff customer.segment segment before after;
              published = write_change-event policy c customer before after band segment db;
              waiting = refl;
              kind = refl;
            }),
      )
