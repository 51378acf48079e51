-- ===== src/Api/Ingest/Fresh.antt =====
-- The deliveries that an ingest adds.
use webhook_recovery.Prelude.{
  arith, ℕ, ◌+◌, ◌≤◌, All-mono, ◌≡◌, refl, List, [], ◌∷◌, ◌++◌, All, All-append, length,
}
use webhook_recovery.Core.Enums.{pending}
use webhook_recovery.Core.Models.{Simulation, Store, Event, Delivery, Subscription}
use webhook_recovery.Core.Clock.{from_row, now_at}
use webhook_recovery.Api.Ingest.{
  EventSpec, new_events, subscribers_of, fan_out_event, fan_out, ingest_events,
}

-- Waiting, with no attempt yet, and with a serial number from `next` on.
pub record IsFresh (next : ℕ) (d : Delivery) : Type 0 where
  pub waits : d.state ≡ pending
  pub untried : d.attempt_count ≡ 0
  pub numbered : next ≤ d.id

from_later : (next later : ℕ) → next ≤ later → (d : Delivery) → IsFresh later d → IsFresh next d
from_later next later h d f = record {
  waits = f.waits;
  untried = f.untried;
  numbered = omega (arith, h, f.numbered);
}

fan_out_event-IsFresh :
    (simulation_id : ℕ) (event : Event) (next : ℕ) (cs : List ℕ)
    → All (IsFresh next) (fan_out_event simulation_id event next cs)
unfolding fan_out_event
fan_out_event-IsFresh simulation_id event next [] = tt
fan_out_event-IsFresh simulation_id event next (c ∷ cs) = (
  record { waits = refl; untried = refl; numbered = omega arith },
  All-mono (IsFresh (next + 1)) (IsFresh next) (from_later next (next + 1) (omega arith)) _
      (fan_out_event-IsFresh simulation_id event (next + 1) cs),
)

fan_out-IsFresh :
    (subscriptions : List Subscription) (simulation_id next : ℕ) (events : List Event)
    → All (IsFresh next) (fan_out subscriptions simulation_id next events)
unfolding fan_out
fan_out-IsFresh subscriptions simulation_id next [] = tt
fan_out-IsFresh subscriptions simulation_id next (event ∷ events) =
    let own =
      fan_out_event simulation_id event next
        (subscribers_of subscriptions simulation_id event.event_type) in
    All-append (IsFresh next) own _
      (fan_out_event-IsFresh simulation_id event next
        (subscribers_of subscriptions simulation_id event.event_type))
      (All-mono (IsFresh (next + length own)) (IsFresh next)
        (from_later next (next + length own) (omega arith)) _
        (fan_out-IsFresh subscriptions simulation_id (next + length own) events))

-- An ingest leaves the rows that are there and the attempts, and adds fresh rows.
pub ingest_events-IsFresh :
    (sim : Simulation) (specs : List EventSpec) (at_wall : ℕ) (store : Store)
    → (new : List Delivery) × All (IsFresh store.next_delivery_id) new
      × ((ingest_events sim specs at_wall store).0.deliveries ≡ store.deliveries ++ new)
unfolding ingest_events
ingest_events-IsFresh sim specs at_wall store =
    let events = new_events sim.id (now_at (from_row sim) at_wall) store.next_event_id specs in
    (
      fan_out store.subscriptions sim.id store.next_delivery_id events,
      fan_out-IsFresh store.subscriptions sim.id store.next_delivery_id events,
      refl,
    )

pub ingest_events-attempts :
    (sim : Simulation) (specs : List EventSpec) (at_wall : ℕ) (store : Store)
    → let out = (ingest_events sim specs at_wall store).0 in
      (out.attempts ≡ store.attempts) × (store.next_delivery_id ≤ out.next_delivery_id)
unfolding ingest_events
ingest_events-attempts sim specs at_wall store = (refl, omega arith)
