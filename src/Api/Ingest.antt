-- ===== src/Api/Ingest.antt =====
-- app/api/ingest.py: the ledger write and the fan-out, in one transaction.
pub mod FanOut
pub mod Fresh
pub mod Serials
use webhook_recovery.Prelude.{
  ℕ, ◌+◌, String, str_eq, Bool, ◌&&◌, Option, none, some, List, [], ◌∷◌, ◌++◌, map, filter, length,
  ◌==◌,
}
use webhook_recovery.Core.Enums.{pending}
use webhook_recovery.Core.Models.{Simulation, Store, Event, Delivery, Subscription}
use webhook_recovery.Core.Clock.{from_row, now_at}

-- The payload is carried and never read, and is left out.
pub record EventSpec : Type 0 where
  pub event_type : String
  pub entity_key : String
  pub occurred_at : Option ℕ

-- `spec.occurred_at or now`
abbrev pub occurred : Option ℕ → ℕ → ℕ
occurred none now = now
occurred (some at) now = at

-- The events, with the serial numbers that the flush gives them.
pub new_events : ℕ → ℕ → ℕ → List EventSpec → List Event
new_events simulation_id now next [] = []
new_events simulation_id now next (spec ∷ specs) =
    record {
      id = next;
      simulation_id = simulation_id;
      event_type = spec.event_type;
      entity_key = spec.entity_key;
      occurred_at = occurred spec.occurred_at now;
    }
    ∷ new_events simulation_id now (next + 1) specs

abbrev pub subscribes : ℕ → String → Subscription → Bool
subscribes simulation_id event_type s =
    s.simulation_id == simulation_id && str_eq s.event_type event_type

-- `subscribers.get(event_type, ())`, of the dict that `_subscribers_by_type` builds.
abbrev pub subscribers_of : List Subscription → ℕ → String → List ℕ
subscribers_of subscriptions simulation_id event_type =
    map (λ s. s.consumer_id) (filter (subscribes simulation_id event_type) subscriptions)

abbrev pub new_delivery : ℕ → Event → ℕ → ℕ → Delivery
new_delivery simulation_id event id consumer_id = record {
  id = id;
  simulation_id = simulation_id;
  event_id = event.id;
  consumer_id = consumer_id;
  event_type = event.event_type;
  entity_key = event.entity_key;
  state = pending;
  attempt_count = 0;
  next_attempt_at = some event.occurred_at;
  ready_at = none;
  leased_by = none;
  lease_expires_at = none;
  terminal_reason = none;
  created_at = event.occurred_at;
  completed_at = none;
}

-- The deliveries of one event, with the serial numbers that the flush gives them.
pub fan_out_event : ℕ → Event → ℕ → List ℕ → List Delivery
fan_out_event simulation_id event next [] = []
fan_out_event simulation_id event next (consumer_id ∷ rest) =
    new_delivery simulation_id event next consumer_id
    ∷ fan_out_event simulation_id event (next + 1) rest

pub fan_out : List Subscription → ℕ → ℕ → List Event → List Delivery
unfolding fan_out_event
fan_out subscriptions simulation_id next [] = []
fan_out subscriptions simulation_id next (event ∷ events) =
    let own =
      fan_out_event simulation_id event next
        (subscribers_of subscriptions simulation_id event.event_type) in
    own ++ fan_out subscriptions simulation_id (next + length own) events

-- `ingest_events`, at a reading of the wall clock. Over no spec it writes nothing.
pub ingest_events : Simulation → List EventSpec → ℕ → Store → Store × List Event
unfolding new_events fan_out
ingest_events sim specs at_wall store =
    let now = now_at (from_row sim) at_wall in
    let events = new_events sim.id now store.next_event_id specs in
    let deliveries = fan_out store.subscriptions sim.id store.next_delivery_id events in
    (
      record store {
        events = store.events ++ events;
        deliveries = store.deliveries ++ deliveries;
        next_event_id = store.next_event_id + length events;
        next_delivery_id = store.next_delivery_id + length deliveries;
      },
      events,
    )
