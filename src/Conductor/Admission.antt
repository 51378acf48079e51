-- ===== src/Conductor/Admission.antt =====
-- app/conductor/admission.py: which pending deliveries become ready, and how many.
pub mod Allocate
pub mod Headroom
pub mod Tests
use webhook_recovery.Prelude.{
  ℕ, zero, suc, ◌+◌, ◌-◌, ◌*◌, ◌/◌, Bool, true, false, not, ◌&&◌, ◌||◌, Option, none, some, List,
  [], ◌∷◌, ◌++◌, map, min, ltb, leb, ◌==◌, if◌then◌else◌, ℤ, pos, sub_ℕ, min_ℤ, max_zero, filter,
  any, elem, count, update_where, sum_of, take, order_by, length,
}
use webhook_recovery.Core.Enums.{
  DeliveryState, ready, in_flight, is_pending, is_ready, is_in_flight,
}
use webhook_recovery.Core.Settings.{Settings}
use webhook_recovery.Core.Models.{Store, Consumer, Delivery, Attempt}
use webhook_recovery.Conductor.Gauges.{Gauges, get_gauge}
use webhook_recovery.Conductor.Policy.{Candidate, as_candidate, Drop, Verdict, PolicyMap, evaluate}

pub record Budget : Type 0 where
  pub buffer_slots : ℤ
  pub rate_slots : ℤ

abbrev pub slots : Budget → ℕ
slots budget = max_zero (min_ℤ budget.buffer_slots budget.rate_slots)

pub record Selection : Type 0 where
  pub admit : List ℕ
  pub drops : List Drop

pub record ConsumerState : Type 0 where
  pub id : ℕ
  pub weight : ℕ
  pub concurrency_cap : ℕ
  pub max_attempts_per_s : ℕ
  pub demand : ℕ
  pub attempts_in_window : ℕ
  pub in_flight : ℕ
  pub ready : ℕ

-- `int(rate * window_s)`: thousandths per second, by microseconds.
abbrev pub per_window : ℕ → ℕ → ℕ
per_window rate window = (rate * window) / 1_000_000_000

pub headroom : ConsumerState → ℕ → Bool → ℕ
headroom state window pooled_concurrency =
    if not pooled_concurrency && leb state.concurrency_cap state.in_flight
    then 0
    else max_zero (
        min_ℤ (pos state.demand) (
          sub_ℕ (per_window state.max_attempts_per_s window)
            (state.attempts_in_window + state.ready)))

-- `math.ceil(multiplier * total_cap)`, of thousandths.
abbrev pub buffer_target : ℕ → ℕ → ℕ
buffer_target multiplier total_cap = (multiplier * total_cap + 999) / 1000

-- `started_at >= now - window`, with the window on the other side.
abbrev pub in_window : ℕ → ℕ → ℕ → Attempt → Bool
in_window simulation_id now window a =
    a.simulation_id == simulation_id && leb now (a.started_at + window)

abbrev pub ready_in : ℕ → Delivery → Bool
ready_in simulation_id d = d.simulation_id == simulation_id && is_ready d.state

abbrev pub total_cap : ℕ → List Consumer → ℕ
total_cap simulation_id consumers =
    sum_of (λ c. c.concurrency_cap) (filter (λ c. c.simulation_id == simulation_id) consumers)

pub compute_budget : Settings → Store → ℕ → ℕ → ℕ → Budget
compute_budget settings store simulation_id global_attempts_per_s now =
    let window = settings.fairness_window_virtual_s in
    let target =
      buffer_target settings.ready_buffer_depth_multiplier
        (total_cap simulation_id store.consumers) in
    let ready_count = count (ready_in simulation_id) store.deliveries in
    let attempts = count (in_window simulation_id now window) store.attempts in
    record {
      buffer_slots = sub_ℕ target ready_count;
      rate_slots = sub_ℕ (per_window global_attempts_per_s window) (attempts + ready_count);
    }

-- A dict from consumer ids to numbers, as the function that its lookups are.
abbrev pub Slots : Type 0
Slots = ℕ → ℕ

abbrev pub increment : Slots → ℕ → Slots
increment granted winner c = if c == winner then granted c + 1 else granted c

-- `(granted[a] / weights[a], a) < (granted[b] / weights[b], b)`, with the fractions multiplied out.
pub precedes : Slots → Slots → ℕ → ℕ → Bool
precedes granted weights a b =
    ltb (granted a * weights b) (granted b * weights a)
    || (granted a * weights b == granted b * weights a && ltb a b)

-- `min(active, key=...)`, of a first member and the others.
pub furthest_behind : Slots → Slots → ℕ → List ℕ → ℕ
unfolding precedes
furthest_behind granted weights best [] = best
furthest_behind granted weights best (c ∷ rest) =
    furthest_behind granted weights (if precedes granted weights c best then c else best) rest

-- `active.discard(winner)`
abbrev pub discard : ℕ → List ℕ → List ℕ
discard winner = filter (λ c. not (c == winner))

-- The body of the loop in `allocate`: one slot to one winner.
pub grant : Slots → Slots → ℕ → List ℕ → Slots → List ℕ × Slots
grant headrooms weights winner active granted =
    let granted' = increment granted winner in
    ((if leb (headrooms winner) (granted' winner) then discard winner active else active), granted')

pub allocate_loop : Slots → Slots → ℕ → List ℕ → Slots → Slots
unfolding grant furthest_behind
allocate_loop headrooms weights zero active granted = granted
allocate_loop headrooms weights (suc n) [] granted = granted
allocate_loop headrooms weights (suc n) (c ∷ rest) granted =
    let (active', granted') =
      grant headrooms weights (furthest_behind granted weights c rest) (c ∷ rest) granted in
    allocate_loop headrooms weights n active' granted'

abbrev pub weight_of : List ConsumerState → Slots
weight_of [] c = 0
weight_of (s ∷ ss) c = if s.id == c then s.weight else weight_of ss c

abbrev pub state_ids : List ConsumerState → List ℕ
state_ids = map (λ s. s.id)

pub allocate : List ConsumerState → Slots → ℕ → Slots
unfolding allocate_loop
allocate states headrooms budget =
    allocate_loop headrooms (weight_of states) budget
      (filter (λ c. ltb 0 (headrooms c)) (state_ids states)) (λ c. 0)
