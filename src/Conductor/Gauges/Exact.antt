-- ===== src/Conductor/Gauges/Exact.antt =====
-- The gauges against plain counts over the table.
use webhook_recovery.Prelude.{
  ℕ, suc, ◌+◌, ◌≡◌, refl, true, ◌&&◌, List, [], ◌∷◌, arith, ◌==◌, if◌then◌else◌, count,
}
use webhook_recovery.Core.Enums.{DeliveryState, is_active, state_eq}
use webhook_recovery.Core.Models.{Delivery}
use webhook_recovery.Conductor.Gauges.{Gauges, tally, read_gauges, get_gauge, total_backlog}

total_backlog-tally :
    (c : ℕ) (s : DeliveryState) (g : Gauges) → total_backlog (tally c s g) ≡ suc (total_backlog g)
unfolding total_backlog tally
total_backlog-tally c s [] = omega arith
total_backlog-tally c s ((c', s', n) ∷ g) = ground (arith, total_backlog-tally c s g)

-- The backlog that decides whether a run is over is the number of deliveries of the run that are
-- pending, ready or in flight.
pub total_backlog-read_gauges :
    (simulation_id : ℕ) (ds : List Delivery)
    → total_backlog (read_gauges simulation_id ds)
      ≡ count (λ d. d.simulation_id == simulation_id && is_active d.state) ds
unfolding read_gauges
total_backlog-read_gauges simulation_id [] = unfold total_backlog in refl
total_backlog-read_gauges simulation_id (d ∷ ds) = ground (
  arith,
  total_backlog-tally d.consumer_id d.state (read_gauges simulation_id ds),
  total_backlog-read_gauges simulation_id ds,
)

state_eq_iff : (s t : DeliveryState) → state_eq s t ≡ true → s ≡ t
state_eq_iff s t h = ground arith

state_eq_refl : (s : DeliveryState) → state_eq s s ≡ true
state_eq_refl s = ground arith

get_gauge-tally :
    (c k : ℕ) (s t : DeliveryState) (g : Gauges)
    → get_gauge (tally c s g) k t ≡ (if c == k && state_eq s t then 1 else 0) + get_gauge g k t
unfolding get_gauge tally
get_gauge-tally c k s t [] = ground arith
get_gauge-tally c k s t ((c', s', n) ∷ g) =
    ground (arith, get_gauge-tally c k s t g, state_eq_iff s' s, state_eq_iff s' t, state_eq_refl s)

-- A gauge of an active state is the number of the consumer's deliveries in it.
pub get_gauge-read_gauges :
    (simulation_id consumer_id : ℕ) (state : DeliveryState) (ds : List Delivery)
    → is_active state ≡ true
    → get_gauge (read_gauges simulation_id ds) consumer_id state
      ≡ count
          (λ d.
            d.simulation_id == simulation_id
            && (d.consumer_id == consumer_id && state_eq d.state state))
          ds
unfolding read_gauges
get_gauge-read_gauges simulation_id consumer_id state [] h = unfold get_gauge in refl
get_gauge-read_gauges simulation_id consumer_id state (d ∷ ds) h = ground (
  arith,
  get_gauge-tally d.consumer_id consumer_id d.state state (read_gauges simulation_id ds),
  get_gauge-read_gauges simulation_id consumer_id state ds,
  state_eq_iff d.state state,
)
