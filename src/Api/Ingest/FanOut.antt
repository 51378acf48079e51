-- ===== src/Api/Ingest/FanOut.antt =====
-- Who gets a delivery of what, and under which ids.
use webhook_recovery.Prelude.{
  ℕ, suc, ◌+◌, ◌≡◌, refl, ap, ◌∙◌, Bool, ◌&&◌, List, [], ◌∷◌, ◌++◌, map, length, count, sum_of,
  ◌==◌, arith,
}
use webhook_recovery.Core.Models.{Simulation, Store, Event, Delivery, Subscription}
use webhook_recovery.Core.Clock.{from_row, now_at}
use webhook_recovery.Api.Ingest.{
  EventSpec, new_events, subscribes, subscribers_of, fan_out_event, fan_out, ingest_events,
}

abbrev ids_of : List Delivery → List ℕ
ids_of = map (λ d. d.id)

abbrev pub is_for : ℕ → Delivery → Bool
is_for consumer_id d = d.consumer_id == consumer_id

count-append {ℓ} :
    {A : Type ℓ} (p : A → Bool) (xs ys : List A) → count p (xs ++ ys) ≡ count p xs + count p ys
count-append p [] ys = omega arith
count-append p (x ∷ xs) ys = ground (arith, count-append p xs ys)

count-fan_out_event :
    (simulation_id : ℕ) (event : Event) (next c : ℕ) (subscriptions : List Subscription)
    → count (is_for c) (
        fan_out_event simulation_id event next
          (subscribers_of subscriptions simulation_id event.event_type))
      ≡ count (λ s. subscribes simulation_id event.event_type s && s.consumer_id == c) subscriptions
unfolding fan_out_event
count-fan_out_event simulation_id event next c [] = refl
count-fan_out_event simulation_id event next c (s ∷ ss) = ground (
  arith,
  count-fan_out_event simulation_id event next c ss,
  count-fan_out_event simulation_id event (next + 1) c ss,
)

count-fan_out :
    (subscriptions : List Subscription) (simulation_id next c : ℕ) (events : List Event)
    → count (is_for c) (fan_out subscriptions simulation_id next events)
      ≡ sum_of
          (λ event.
            count
              (λ s. subscribes simulation_id event.event_type s && s.consumer_id == c)
              subscriptions)
          events
unfolding fan_out
count-fan_out subscriptions simulation_id next c [] = refl
count-fan_out subscriptions simulation_id next c (event ∷ events) =
    let own =
      fan_out_event simulation_id event next
        (subscribers_of subscriptions simulation_id event.event_type) in
    omega (
      arith,
      count-append (is_for c) own (fan_out subscriptions simulation_id (next + length own) events),
      count-fan_out_event simulation_id event next c subscriptions,
      count-fan_out subscriptions simulation_id (next + length own) c events,
    )

length-new_events :
    (simulation_id now next : ℕ) (specs : List EventSpec)
    → length (new_events simulation_id now next specs) ≡ length specs
unfolding new_events
length-new_events simulation_id now next [] = refl
length-new_events simulation_id now next (spec ∷ specs) =
    ap suc (length-new_events simulation_id now (next + 1) specs)

-- Ingest loses no event and delivers to whoever subscribes: it ledgers one event for each spec, and
-- each consumer gets as many new deliveries as the subscriptions of the simulation that it has to
-- the types of those events.
pub ingest_events-count :
    (sim : Simulation) (specs : List EventSpec) (at_wall : ℕ) (store : Store) (c : ℕ)
    → let out = ingest_events sim specs at_wall store in
      (out.0.events ≡ store.events ++ out.1)
      × (length out.1 ≡ length specs)
      × (count (is_for c) out.0.deliveries
          ≡ count (is_for c) store.deliveries
            + sum_of
                (λ event.
                  count
                    (λ s. subscribes sim.id event.event_type s && s.consumer_id == c)
                    store.subscriptions)
                out.1)
unfolding ingest_events
ingest_events-count sim specs at_wall store c =
    let now = now_at (from_row sim) at_wall in
    let events = new_events sim.id now store.next_event_id specs in
    let new = fan_out store.subscriptions sim.id store.next_delivery_id events in
    (
      refl,
      length-new_events sim.id now store.next_event_id specs,
      count-append (is_for c) store.deliveries new
          ∙ ap (λ n. count (is_for c) store.deliveries + n)
              (count-fan_out store.subscriptions sim.id store.next_delivery_id c events),
    )
