-- ===== src/Api/Ingest/Serials.antt =====
-- The ids of the deliveries stay distinct.
use mathlib.Core.List.{map-append}
use webhook_recovery.Prelude.{
  ℕ, suc, ◌+◌, ◌≤◌, ◌<◌, ◌≡◌, refl, sym, subst, false, ◌||◌, List, [], ◌∷◌, ◌++◌, map, length,
  length-append, elem, Distinct, All, All-mono, All-append, arith,
}
use webhook_recovery.Core.Models.{Simulation, Store, Event, Delivery, Subscription}
use webhook_recovery.Core.Clock.{from_row, now_at}
use webhook_recovery.Api.Ingest.{
  EventSpec, new_events, subscribers_of, fan_out_event, fan_out, ingest_events,
}

abbrev ids_of : List Delivery → List ℕ
ids_of = map (λ d. d.id)

-- Distinct numbers between two bounds, the upper one not among them.
record IsSpan (lo hi : ℕ) (ids : List ℕ) : Type 0 where
  distinct : Distinct ids
  within : All (λ i. (lo ≤ i) × (i < hi)) ids

not_below : (n : ℕ) (ids : List ℕ) (lo : ℕ) → n < lo → All (λ i. lo ≤ i) ids → elem n ids ≡ false
not_below n [] lo h a = refl
not_below n (i ∷ ids) lo h a = ground (arith, not_below n ids lo h a.1, a.0)

elem-append : (n : ℕ) (xs ys : List ℕ) → elem n (xs ++ ys) ≡ (elem n xs || elem n ys)
elem-append n [] ys = refl
elem-append n (x ∷ xs) ys = ground (arith, elem-append n xs ys)

Distinct-append :
    (mid : ℕ) (xs ys : List ℕ)
    → Distinct xs
    → Distinct ys
    → All (λ i. i < mid) xs
    → All (λ i. mid ≤ i) ys
    → Distinct (xs ++ ys)
Distinct-append mid [] ys u v a b = v
Distinct-append mid (x ∷ xs) ys u v a b = (
  ground (arith, elem-append x xs ys, u.0, not_below x ys mid a.0 b),
  Distinct-append mid xs ys u.1 v a.1 b,
)

IsSpan-append :
    (lo mid hi : ℕ) (xs ys : List ℕ)
    → lo ≤ mid
    → mid ≤ hi
    → IsSpan lo mid xs
    → IsSpan mid hi ys
    → IsSpan lo hi (xs ++ ys)
IsSpan-append lo mid hi xs ys h k s t = record {
  distinct =
      Distinct-append mid xs ys s.distinct t.distinct
        (All-mono (λ i. (lo ≤ i) × (i < mid)) (λ i. i < mid) (λ i p. p.1) xs s.within)
        (All-mono (λ i. (mid ≤ i) × (i < hi)) (λ i. mid ≤ i) (λ i p. p.0) ys t.within);
  within =
      All-append (λ i. (lo ≤ i) × (i < hi)) xs ys
        (All-mono (λ i. (lo ≤ i) × (i < mid)) (λ i. (lo ≤ i) × (i < hi))
          (λ i p. (p.0, omega (arith, p.1))) xs s.within)
        (All-mono (λ i. (mid ≤ i) × (i < hi)) (λ i. (lo ≤ i) × (i < hi))
          (λ i p. (omega (arith, p.0), p.1)) ys t.within);
}

IsSpan-one : (n : ℕ) → IsSpan n (n + 1) (n ∷ [])
IsSpan-one n = record { distinct = (refl, tt); within = ((omega arith, omega arith), tt) }

fan_out_event-IsSpan :
    (simulation_id : ℕ) (event : Event) (next : ℕ) (cs : List ℕ)
    → let out = fan_out_event simulation_id event next cs in
      IsSpan next (next + length out) (ids_of out)
unfolding fan_out_event
fan_out_event-IsSpan simulation_id event next [] = record { distinct = tt; within = tt }
fan_out_event-IsSpan simulation_id event next (c ∷ cs) =
    let out = fan_out_event simulation_id event (next + 1) cs in
    let same : next + 1 + length out ≡ next + suc (length out) = omega arith in
    IsSpan-append next (next + 1) (next + suc (length out)) (next ∷ []) (ids_of out) (omega arith)
      (omega arith) (IsSpan-one next)
      (subst (λ hi. IsSpan (next + 1) hi (ids_of out)) same
        (fan_out_event-IsSpan simulation_id event (next + 1) cs))

fan_out-IsSpan :
    (subscriptions : List Subscription) (simulation_id next : ℕ) (events : List Event)
    → let out = fan_out subscriptions simulation_id next events in
      IsSpan next (next + length out) (ids_of out)
unfolding fan_out
fan_out-IsSpan subscriptions simulation_id next [] = record { distinct = tt; within = tt }
fan_out-IsSpan subscriptions simulation_id next (event ∷ events) =
    let own =
      fan_out_event simulation_id event next
        (subscribers_of subscriptions simulation_id event.event_type) in
    let rest = fan_out subscriptions simulation_id (next + length own) events in
    let same : next + length own + length rest ≡ next + length (own ++ rest) =
      omega (arith, length-append {0} own rest) in
    subst (IsSpan next (next + length (own ++ rest))) (sym (map-append (λ d. d.id) own rest)) (
      IsSpan-append next (next + length own) (next + length (own ++ rest)) (ids_of own)
        (ids_of rest) (omega arith) (omega (arith, same))
        (fan_out_event-IsSpan simulation_id event next
          (subscribers_of subscriptions simulation_id event.event_type))
        (subst (λ hi. IsSpan (next + length own) hi (ids_of rest)) same
          (fan_out-IsSpan subscriptions simulation_id (next + length own) events)))

-- The deliveries of a store have distinct ids, below the next serial number.
pub record IsSerial (store : Store) : Type 0 where
  pub distinct : Distinct (map (λ d. d.id) store.deliveries)
  pub below : All (λ id. id < store.next_delivery_id) (map (λ d. d.id) store.deliveries)

-- Where the deliveries have distinct ids below the next serial number, they have after an ingest of
-- any batch too, the new ones among them.
pub ingest_events-IsSerial :
    (sim : Simulation) (specs : List EventSpec) (at_wall : ℕ) (store : Store)
    → IsSerial store
    → IsSerial (ingest_events sim specs at_wall store).0
unfolding ingest_events
ingest_events-IsSerial sim specs at_wall store s =
    let now = now_at (from_row sim) at_wall in
    let events = new_events sim.id now store.next_event_id specs in
    let next = store.next_delivery_id in
    let new = fan_out store.subscriptions sim.id next events in
    let hi = next + length new in
    let old : IsSpan 0 next (ids_of store.deliveries) = record {
      distinct = s.distinct;
      within =
          All-mono (λ i. i < next) (λ i. (0 ≤ i) × (i < next)) (λ i p. (omega arith, p)) _ s.below;
    } in
    let both : IsSpan 0 hi (ids_of (store.deliveries ++ new)) =
      subst (IsSpan 0 hi) (sym (map-append (λ d. d.id) store.deliveries new)) (
        IsSpan-append 0 next hi (ids_of store.deliveries) (ids_of new) (omega arith) (omega arith)
          old (fan_out-IsSpan store.subscriptions sim.id next events)) in
    record {
      distinct = both.distinct;
      below = All-mono (λ i. (0 ≤ i) × (i < hi)) (λ i. i < hi) (λ i p. p.1) _ both.within;
    }
