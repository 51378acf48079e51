-- ===== src/Api/Producer.antt =====
-- app/api/producer.py: the traffic of a run, with the event mix of app/core/scenario.py. The random
-- draws are a parameter; a rate is a number of thousandths of an event per virtual second, a chance
-- one of thousand-millionths, and times are in microseconds.
pub mod Tests
pub mod Timely
use webhook_recovery.Prelude.{
  ℕ, zero, suc, ◌+◌, ◌-◌, ◌*◌, ◌/◌, ◌%◌, ◌≤◌, String, Bool, true, false, not, ◌||◌, Option, none,
  some, List, [], ◌∷◌, ◌++◌, map, filter, any, max, ltb, leb, ◌==◌, if◌then◌else◌, order_by,
}
use webhook_recovery.Core.Enums.{is_running, is_paused}
use webhook_recovery.Core.Settings.{Settings}
use webhook_recovery.Core.Models.{Simulation, Store, Event}
use webhook_recovery.Core.Clock.{from_row, now_at, virtual_epoch_zero}
use webhook_recovery.Core.Scenario.{is_producing}
use webhook_recovery.Api.Ingest.{EventSpec, ingest_events}

pub record EventTypeSpec : Type 0 where
  pub event_type : String
  pub rate_per_virtual_s : ℕ
  pub key_prefix : String
  pub key_pool : Option ℕ

abbrev pub event_mix : List EventTypeSpec
event_mix =
    record {
      event_type = "payment_intent.succeeded";
      rate_per_virtual_s = 1100;
      key_prefix = "pi";
      key_pool = none;
    }
    ∷ record {
      event_type = "customer.subscription.updated";
      rate_per_virtual_s = 2300;
      key_prefix = "sub";
      key_pool = some 20;
    }
    ∷ record {
      event_type = "balance.available";
      rate_per_virtual_s = 1850;
      key_prefix = "acct";
      key_pool = some 25;
    }
    ∷ record {
      event_type = "invoice.paid";
      rate_per_virtual_s = 800;
      key_prefix = "in";
      key_pool = none;
    }
    ∷ []

-- What the generator gives, by the type of the event and by its sequence number: the coin flip, an
-- index into a key pool and a time in a window; and the two formats of a key.
pub record Rng : Type 0 where
  pub random : String → ℕ → ℕ
  pub randrange : ℕ → ℕ → ℕ
  pub uniform : ℕ → ℕ → ℕ
  pub hex_key : String → ℕ → String
  pub pool_key : String → ℕ → String

-- `_SimulationState`, less the generator.
pub record SimulationState : Type 0 where
  pub last_emitted : Option ℕ
  pub sequence : ℕ

pub entity_key : Rng → EventTypeSpec → ℕ → String
entity_key rng spec drawn = elim spec.key_pool [
  | none ↦ rng.hex_key spec.key_prefix drawn
  | some pool ↦ rng.pool_key spec.key_prefix (drawn % pool)
]

abbrev pub drawn_of : Rng → Option ℕ → ℕ → ℕ
drawn_of rng none sequence = sequence
drawn_of rng (some pool) sequence = rng.randrange pool sequence

-- `_one`, once the sequence has its new number.
pub one : Rng → EventTypeSpec → ℕ → ℕ → ℕ → EventSpec
unfolding entity_key
one rng spec since window sequence =
    let drawn = drawn_of rng spec.key_pool sequence in
    record {
      event_type = spec.event_type;
      entity_key = entity_key rng spec drawn;
      occurred_at = some (since + rng.uniform window sequence);
    }

pub ones : Rng → EventTypeSpec → ℕ → ℕ → ℕ → ℕ → List EventSpec
unfolding one
ones rng spec since window sequence zero = []
ones rng spec since window sequence (suc n) =
    one rng spec since window (sequence + 1) ∷ ones rng spec since window (sequence + 1) n

-- The expected count, its fraction resolved by the coin.
abbrev pub count_of : Rng → EventTypeSpec → ℕ → ℕ → ℕ
count_of rng spec window sequence =
    let expected = spec.rate_per_virtual_s * window in
    let whole = expected / 1_000_000_000 in
    if ltb (rng.random spec.event_type sequence) (expected % 1_000_000_000)
    then whole + 1
    else whole

pub draw_all : Rng → ℕ → ℕ → List EventTypeSpec → ℕ → List EventSpec × ℕ
unfolding ones
draw_all rng since window [] sequence = ([], sequence)
draw_all rng since window (spec ∷ specs) sequence =
    let n = count_of rng spec window sequence in
    let (rest, sequence') = draw_all rng since window specs (sequence + n) in
    (ones rng spec since window sequence n ++ rest, sequence')

-- `s.occurred_at or since`
abbrev pub occurred_or : ℕ → EventSpec → ℕ
occurred_or since spec = elim spec.occurred_at [ none ↦ since | some at ↦ at ]

-- `_draw`: the window's events in the order in which they occurred.
pub draw : Rng → ℕ → ℕ → ℕ → List EventSpec × ℕ
unfolding draw_all
draw rng since window sequence =
    let (specs, sequence') = draw_all rng since window event_mix sequence in
    (order_by (occurred_or since) specs, sequence')

-- `_last_emitted`: the latest event of the simulation.
pub last_emitted_of : ℕ → List Event → Option ℕ
last_emitted_of simulation_id [] = none
last_emitted_of simulation_id (event ∷ events) =
    let rest = last_emitted_of simulation_id events in
    if event.simulation_id == simulation_id
    then elim rest [ none ↦ some event.occurred_at | some at ↦ some (max event.occurred_at at) ]
    else rest

-- The producer's dict, by simulation, as far as one simulation goes.
abbrev pub state_of : Simulation → Store → Option SimulationState → SimulationState
state_of sim store none = record {
  last_emitted = last_emitted_of sim.id store.events;
  sequence = 0;
}
state_of sim store (some state) = state

abbrev pub since_of : SimulationState → ℕ
since_of state = elim state.last_emitted [ none ↦ virtual_epoch_zero | some at ↦ at ]

-- The window that is drawn: where it starts, cut to the longest catch-up.
abbrev pub start_of : Settings → ℕ → SimulationState → ℕ
start_of settings now state =
    if ltb settings.producer_max_catchup_virtual_s (now - since_of state)
    then now - settings.producer_max_catchup_virtual_s
    else since_of state

-- The part of `_emit_for` that is not the ledger's: what it remembers and what it emits.
pub emit :
    Settings
    → Simulation
    → Rng
    → ℕ
    → Store
    → Option SimulationState
    → Option SimulationState × List EventSpec
unfolding draw last_emitted_of
emit settings sim rng at_wall store known =
    let now = now_at (from_row sim) at_wall in
    let state = state_of sim store known in
    let start = start_of settings now state in
    let (specs, sequence) = draw rng start (now - start) state.sequence in
    if is_paused sim.status || not (is_producing (now - virtual_epoch_zero))
    then (known, [])
    else if leb now (since_of state)
    then (some state, [])
    else (some (record { last_emitted = some now; sequence = sequence }), specs)

-- `_emit_for`; `ingest_at` is what the wall clock reads when the events are written.
pub emit_for :
    Settings
    → Simulation
    → Rng
    → ℕ
    → ℕ
    → Option SimulationState × Store
    → Option SimulationState × Store
unfolding emit
emit_for settings sim rng at_wall ingest_at (known, store) =
    let (state, specs) = emit settings sim rng at_wall store known in
    elim specs [
      | [] ↦ (state, store)
      | spec ∷ rest ↦ (state, (ingest_events sim (spec ∷ rest) ingest_at store).0)
    ]

-- The producer's dict.
abbrev pub States : Type 0
States = ℕ → Option SimulationState

-- The loop of `tick`; `rngs`, `at_wall` and `ingest_at` are those of each simulation.
pub tick_all :
    Settings → (ℕ → Rng) → (ℕ → ℕ) → (ℕ → ℕ) → List Simulation → States × Store → States × Store
unfolding emit_for
tick_all settings rngs at_wall ingest_at [] states = states
tick_all settings rngs at_wall ingest_at (sim ∷ sims) (states, store) =
    let (state, store') =
      emit_for settings sim (rngs sim.id) (at_wall sim.id) (ingest_at sim.id)
        (states sim.id, store) in
    tick_all settings rngs at_wall ingest_at sims
      (λ id. if sim.id == id then state else states id, store')

-- `tick`: what it remembers of simulations that do not run any more is dropped.
pub tick : Settings → (ℕ → Rng) → (ℕ → ℕ) → (ℕ → ℕ) → States × Store → States × Store
unfolding tick_all
tick settings rngs at_wall ingest_at (states, store) =
    let sims = filter (λ (sim : Simulation). is_running sim.status) store.simulations in
    let (states', store') = tick_all settings rngs at_wall ingest_at sims (states, store) in
    (λ id. if any (λ (sim : Simulation). sim.id == id) sims then states' id else none, store')
