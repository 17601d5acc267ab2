-- ===== src/Bus/Examples.antt =====
-- Runs of the dispatcher over a world that counts the handlers' calls, and the theorems at them.
use neutail.Bus.Liveness.{dispatch_to-Returns, Returns, Readable}
use neutail.Bus.Delivery.{
  handler_raised, mark_published, completed_delivery, complete_delivery, fail_delivery,
  claim_delivery, record_event_attempt,
}
use neutail.Base.{
  ℕ, ◌+◌, ◌≡◌, refl, Bool, true, none, some, [], ◌∷◌, nat_eq, string_eq, pair_eq, ok, raised,
}
use neutail.Base.Table.{get, put}
use neutail.Base.Samples.{flag_json, flag-IsJson}
use neutail.Bus.Schema.{pending_outbox, OutboxStatus, DeliveryStatus, OutboxEvent, Delivery}
use neutail.Bus.{
  Responses, Subscribers, dispatch_event, subscribe, dispatch, Event, State, Subscriber,
  dispatch_to, deliver, attempt,
}
use neutail.Bus.Replay.{IsDispatched, IsReplay, dispatch_to-published, dispatch_to-replays}
use neutail.Bus.Failure.{IsHeld, dispatch_to-raised}
use neutail.Bus.Keeps.{Delivered}
use neutail.Base.{List}
use neutail.Base.Lists.{All}
use neutail.Bus.Schema.{DeliveryKey}

abbrev purchase : OutboxEvent
purchase = record {
  outbox_id = "OUT-1";
  event_type = "CUSTOMER_SEGMENT_CHANGED";
  aggregate_id = "CUST001";
  payload_json = "true";
  trace_id = "t";
  causation_id = "EVT-1";
  correlation_id = "t";
  status = OutboxStatus.pending;
  attempt_count = 0;
  created_at = 1;
  published_at = none;
}

abbrev purchase_event : Event Bool
purchase_event = record {
  outbox_id = "OUT-1";
  event_type = "CUSTOMER_SEGMENT_CHANGED";
  aggregate_id = "CUST001";
  payload = true;
  trace_id = "t";
  causation_id = "EVT-1";
  correlation_id = "t";
}

abbrev counting : Subscriber Bool ℕ
counting = ("profile_context_projection", λ event calls. (ok true, calls + 1))

abbrev failing : Subscriber Bool ℕ
failing = ("upsell_high_engagement", λ event calls. (raised "RuntimeError", calls + 1))

abbrev start : State ℕ
start = record { db = record { outbox = ("OUT-1", purchase) ∷ []; deliveries = [] }; world = 0 }

abbrev delivered_once : Delivery
delivered_once = record {
  status = DeliveryStatus.completed;
  attempt_count = 1;
  response_json = some "true";
  last_error = none;
  updated_at = 5;
}

abbrev after : State ℕ
after = record {
  db = record {
    outbox =
        (
          "OUT-1",
          record purchase {
            status = OutboxStatus.published;
            attempt_count = 1;
            published_at = some 5;
          },
        )
        ∷ [];
    deliveries = (("OUT-1", "profile_context_projection"), delivered_once) ∷ [];
  };
  world = 1;
}

dispatches :
    dispatch_to 5 (counting ∷ []) purchase_event start
    ≡ (ok (("profile_context_projection", true) ∷ []), after)
unfolding dispatch_to record_event_attempt deliver attempt claim_delivery complete_delivery
    completed_delivery mark_published get put
dispatches = refl

dispatch_to-published_example :
    (e : OutboxEvent) × IsDispatched purchase_event (counting ∷ []) e after
dispatch_to-published_example =
    dispatch_to-published flag-IsJson 5 purchase_event (counting ∷ [])
      (("profile_context_projection", true) ∷ []) start after dispatches

dispatch_to-replays_example :
    (s″ : State ℕ) × (dispatch_to 9 (counting ∷ []) purchase_event after
      ≡ (ok (("profile_context_projection", true) ∷ []), s″))
    × IsReplay after s″
dispatch_to-replays_example =
    dispatch_to-replays flag-IsJson 5 purchase_event 9 counting []
      (("profile_context_projection", true) ∷ []) start after dispatches

-- The first dispatch of an event, to a subscriber that raises, beside a delivery of an earlier event.
abbrev before : State ℕ
before = record {
  db = record {
    outbox = ("OUT-1", purchase) ∷ [];
    deliveries = (("OUT-0", "profile_context_projection"), delivered_once) ∷ [];
  };
  world = 1;
}

abbrev held : State ℕ
held = (dispatch_to 9 (counting ∷ failing ∷ []) purchase_event before).1

abbrev earlier : List (DeliveryKey × Bool)
earlier = (("OUT-0", "profile_context_projection"), true) ∷ []

dispatch_to-raised_example :
    (e' : OutboxEvent) × IsHeld "OUT-1" purchase e' held
    × All (λ (d : DeliveryKey × Bool). Delivered held.db d.0 d.1) earlier
unfolding dispatch_to record_event_attempt deliver attempt claim_delivery fail_delivery
    complete_delivery completed_delivery mark_published get put
dispatch_to-raised_example =
    dispatch_to-raised 9 purchase_event (counting ∷ failing ∷ []) (handler_raised "RuntimeError")
      purchase before held earlier refl refl (refl, tt)

abbrev listening : Subscribers Bool ℕ
listening = ("CUSTOMER_SEGMENT_CHANGED", counting ∷ []) ∷ []

subscribes :
    subscribe "CUSTOMER_SEGMENT_CHANGED" "profile_context_projection" counting.1 [] ≡ ok listening
unfolding subscribe get put
subscribes = refl

-- The waiting event is loaded, handed to the subscriber of its type, and published.
dispatch_pending :
    dispatch 5 listening none 100 true start
    ≡ (ok (("OUT-1", ("profile_context_projection", true) ∷ []) ∷ []), after)
unfolding dispatch pending_outbox dispatch_event dispatch_to record_event_attempt deliver attempt
    claim_delivery complete_delivery completed_delivery mark_published get put
dispatch_pending = refl

start-Readable : Readable Bool start.db
unfolding completed_delivery get
start-Readable key = (none, refl)

counting-Returns : Returns purchase_event (counting ∷ [])
counting-Returns = (λ calls. (true, calls + 1, refl), tt)

purchase_there : get "OUT-1" start.db.outbox ≡ some purchase
unfolding get
purchase_there = refl

dispatch_to-Returns_example :
    (r : Responses Bool) × (s' : State ℕ) × (dispatch_to 5 (counting ∷ []) purchase_event start
      ≡ (ok r, s'))
dispatch_to-Returns_example =
    dispatch_to-Returns flag-IsJson 5 purchase_event counting [] start purchase purchase_there
      start-Readable counting-Returns
