-- ===== src/Conductor/Selection.antt =====
-- app/conductor/admission.py: reading the consumers, picking the candidates, rationing what policy
-- leaves of them, and admitting.
pub mod Rationing
pub mod Cases
pub mod Due
pub mod Caps
pub mod Marked
pub mod Disjoint
pub mod Tests
use webhook_recovery.Prelude.{
  ℕ, zero, suc, ◌+◌, ◌*◌, Bool, true, false, not, ◌&&◌, Option, none, some, List, [], ◌∷◌, ◌++◌,
  map, min, ltb, leb, ◌==◌, if◌then◌else◌, filter, any, elem, count, update_where, take, order_by,
}
use webhook_recovery.Core.Enums.{DeliveryState, ready, in_flight, is_pending}
use webhook_recovery.Core.Settings.{Settings}
use webhook_recovery.Core.Models.{Store, Consumer, Delivery, Attempt}
use webhook_recovery.Conductor.Gauges.{Gauges, get_gauge}
use webhook_recovery.Conductor.Policy.{Candidate, as_candidate, Drop, Verdict, PolicyMap, evaluate}
use webhook_recovery.Conductor.Admission.{
  Budget, slots, Selection, ConsumerState, Slots, increment, in_window, headroom, allocate,
  state_ids,
}

-- `next_attempt_at <= now`, which is not true of NULL.
abbrev pub due_by : Option ℕ → ℕ → Bool
due_by none now = false
due_by (some at) now = leb at now

-- The conditions of `_due`.
abbrev pub is_due : ℕ → ℕ → Delivery → Bool
is_due simulation_id now d =
    d.simulation_id == simulation_id && (is_pending d.state && due_by d.next_attempt_at now)

-- The demand that the outer join counts for one consumer.
abbrev pub demand_of : ℕ → ℕ → List Delivery → ℕ
demand_of consumer_id now =
    count
      (λ d. d.consumer_id == consumer_id && (is_pending d.state && due_by d.next_attempt_at now))

abbrev pub attempts_of : ℕ → ℕ → ℕ → ℕ → List Attempt → ℕ
attempts_of simulation_id consumer_id now window =
    count (λ a. in_window simulation_id now window a && a.consumer_id == consumer_id)

pub consumer_state : Settings → Store → ℕ → ℕ → Gauges → Consumer → ConsumerState
consumer_state settings store simulation_id now gauges c = record {
  id = c.id;
  weight = c.weight;
  concurrency_cap = c.concurrency_cap;
  max_attempts_per_s = c.max_attempts_per_s;
  demand = demand_of c.id now store.deliveries;
  attempts_in_window =
      attempts_of simulation_id c.id now settings.fairness_window_virtual_s store.attempts;
  in_flight = get_gauge gauges c.id in_flight;
  ready = get_gauge gauges c.id ready;
}

pub read_consumer_states : Settings → Store → ℕ → ℕ → Gauges → List ConsumerState
unfolding consumer_state
read_consumer_states settings store simulation_id now gauges =
    map (consumer_state settings store simulation_id now gauges)
      (order_by (λ c. c.id) (filter (λ c. c.simulation_id == simulation_id) store.consumers))

-- `{state.id: state.headroom(...) for state in states}`
abbrev pub headroom_of : ℕ → Bool → List ConsumerState → Slots
headroom_of window pooled [] c = 0
headroom_of window pooled (s ∷ ss) c =
    if s.id == c then headroom s window pooled else headroom_of window pooled ss c

pub allowances : List ConsumerState → Slots → ℕ → Bool → Slots
allowances states headrooms budget fair_drain =
    if fair_drain then allocate states headrooms budget else (λ c. min (headrooms c) budget)

abbrev pub due_at : Delivery → ℕ
due_at d = elim d.next_attempt_at [ none ↦ 0 | some at ↦ at ]

-- The oldest due deliveries, globally.
pub fifo_candidates : ℕ → ℕ → ℕ → List Delivery → List Candidate
fifo_candidates simulation_id now limit deliveries =
    map as_candidate (take limit (order_by due_at (filter (is_due simulation_id now) deliveries)))

abbrev pub max_of : Slots → List ℕ → ℕ
max_of f [] = 0
max_of f (c ∷ cs) = let rest = max_of f cs in if leb rest (f c) then f c else rest

-- The rows of one partition of the window function, up to a rank.
abbrev pub oldest_of : ℕ → ℕ → ℕ → List Delivery → ℕ → List Delivery
oldest_of simulation_id now rank deliveries consumer_id = take rank (
    order_by due_at
      (filter (λ d. is_due simulation_id now d && d.consumer_id == consumer_id) deliveries))

abbrev pub oldest_of_each : ℕ → ℕ → ℕ → List Delivery → List ℕ → List Delivery
oldest_of_each simulation_id now rank deliveries [] = []
oldest_of_each simulation_id now rank deliveries (c ∷ cs) =
    oldest_of simulation_id now rank deliveries c
    ++ oldest_of_each simulation_id now rank deliveries cs

-- The oldest due deliveries of each consumer. The consumers come in the order of their ids.
pub fair_candidates : ℕ → ℕ → Slots → List ℕ → ℕ → List Delivery → List Candidate
fair_candidates simulation_id now allowed consumers overfetch deliveries =
    map as_candidate
      (oldest_of_each simulation_id now (max_of allowed consumers * overfetch) deliveries consumers)

-- The rationing loop: `n` is `len(admit)`. The list is empty from the slot that fills the budget on.
pub ration : ℕ → Slots → Slots → ℕ → List Candidate → List Candidate
ration budget allowed taken n [] = []
ration budget allowed taken n (c ∷ cs) =
    let skipped = ration budget allowed taken n cs in
    let admitted = c ∷ ration budget allowed (increment taken c.consumer_id) (n + 1) cs in
    if leb budget n
    then []
    else if leb (allowed c.consumer_id) (taken c.consumer_id)
    then skipped
    else admitted

pub candidates_for : Settings → ℕ → ℕ → ℕ → Slots → List ℕ → Bool → List Delivery → List Candidate
unfolding fair_candidates fifo_candidates
candidates_for settings simulation_id now budget allowed consumers fair_drain deliveries =
    if fair_drain
    then fair_candidates simulation_id now allowed consumers settings.admission_overfetch deliveries
    else fifo_candidates simulation_id now (budget * settings.admission_overfetch) deliveries

abbrev pub nothing : Selection
nothing = record { admit = []; drops = [] }

-- What a pass selects once it knows what each consumer may be given.
pub select_among : Settings → Store → ℕ → ℕ → ℕ → PolicyMap → Bool → Slots → List ℕ → Selection
unfolding candidates_for ration
select_among settings store simulation_id now budget policies fair_drain allowed consumers =
    let verdict =
      evaluate simulation_id store.deliveries
        (candidates_for settings simulation_id now budget allowed consumers fair_drain
          store.deliveries)
        policies now in
    record {
      admit = map (λ c. c.id) (ration budget allowed (λ c. 0) 0 verdict.admit);
      drops = verdict.drops;
    }

-- `not any(...)` also holds where there are no consumers, which the source tests first.
pub select_candidates : Settings → Store → ℕ → ℕ → Budget → Gauges → PolicyMap → Bool → Selection
unfolding select_among read_consumer_states allowances
select_candidates settings store simulation_id now budget gauges policies fair_drain =
    let states = read_consumer_states settings store simulation_id now gauges in
    let headrooms = headroom_of settings.fairness_window_virtual_s (not fair_drain) states in
    let allowed = allowances states headrooms (slots budget) fair_drain in
    let chosen =
      select_among settings store simulation_id now (slots budget) policies fair_drain allowed
        (state_ids states) in
    if slots budget == 0
    then nothing
    else if not (any (λ c. ltb 0 (allowed c)) (state_ids states))
    then nothing
    else chosen

pub mark_ready : List ℕ → ℕ → List Delivery → List Delivery
mark_ready delivery_ids now =
    update_where (λ d. elem d.id delivery_ids)
      (λ d. record d { state = ready; ready_at = some now })
