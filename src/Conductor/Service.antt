-- ===== src/Conductor/Service.antt =====
-- app/conductor/service.py: one pass of the leader over every running simulation.
pub mod Admit
pub mod Run
pub mod Gates
pub mod Rows
pub mod Serials
pub mod Tests
use webhook_recovery.Prelude.{
  ℕ, ◌-◌, Bool, true, false, Option, none, some, List, [], ◌∷◌, filter, ◌==◌, if◌then◌else◌,
  update_where,
}
use webhook_recovery.Core.Enums.{SimStatus, done, is_running}
use webhook_recovery.Core.Settings.{Settings}
use webhook_recovery.Core.Models.{Simulation, Store}
use webhook_recovery.Core.Clock.{virtual_epoch_zero, from_row, now_at}
use webhook_recovery.Core.Scenario.{is_finished, is_outage}
use webhook_recovery.Conductor.Gauges.{Gauges, read_gauges, total_backlog}
use webhook_recovery.Conductor.Metrics.{Cursors, write}
use webhook_recovery.Conductor.Policy.{load_policies, apply_drops}
use webhook_recovery.Conductor.Admission.{Budget, slots, compute_budget}
use webhook_recovery.Conductor.Selection.{select_candidates, mark_ready}
use webhook_recovery.Conductor.Reaper.{reclaim_expired_leases}

abbrev pub retire_row : ℕ → Simulation → Simulation
retire_row now sim = record sim { status = done; paused_at_virtual = some now }

-- `_retire`
pub retire : ℕ → ℕ → Store → Store
retire simulation_id now store = record store {
  simulations = update_where (λ sim. sim.id == simulation_id) (retire_row now) store.simulations;
}

-- The part of a pass that admits: from the budget on.
pub admit : Settings → Simulation → ℕ → Gauges → Store → Store
admit settings sim now gauges store =
    let budget = compute_budget settings store sim.id sim.global_attempts_per_s now in
    let selection =
      select_candidates settings store sim.id now budget gauges
        (load_policies store.policies sim.id) sim.fair_drain_enabled in
    if slots budget == 0 then store else record store {
      deliveries =
          mark_ready selection.admit now (apply_drops selection.drops now store.deliveries);
    }

-- What a pass does once the series is written. `elapsed` comes from a reading of its own.
pub decide : Settings → Simulation → ℕ → ℕ → Gauges → Store → Store
unfolding retire admit
decide settings sim now elapsed gauges store =
    if is_finished elapsed (total_backlog gauges)
    then retire sim.id now store
    else if is_outage elapsed sim.outage_override
    then store
    else admit settings sim now gauges store

-- What the wall clock reads at the two calls, for `now` and for the elapsed time.
abbrev pub Readings : Type 0
Readings = ℕ × ℕ

-- `_pass`. The table's check that speeds are positive rules out the clock's ValueError.
pub pass : Settings → (ℕ → Bool) → Simulation → Readings → Cursors × Store → Cursors × Store
unfolding decide
pass settings locked sim (at_wall, then_wall) (cursors, store) =
    let now = now_at (from_row sim) at_wall in
    let elapsed = now_at (from_row sim) then_wall - virtual_epoch_zero in
    let reclaimed = (reclaim_expired_leases settings sim.id now locked store).0 in
    let gauges = read_gauges sim.id reclaimed.deliveries in
    let (cursors', measured) = write settings sim.id now gauges cursors reclaimed in
    (cursors', decide settings sim now elapsed gauges measured)

-- The simulations are read once, before the first pass; `readings` are those of each one's pass.
pub pass_all :
    Settings → (ℕ → Bool) → (ℕ → Readings) → List Simulation → Cursors × Store → Cursors × Store
unfolding pass
pass_all settings locked readings [] state = state
pass_all settings locked readings (sim ∷ sims) state =
    pass_all settings locked readings sims (pass settings locked sim (readings sim.id) state)

-- The loop of `run_once`, for a leader whose statements all succeed.
pub run_once : Settings → (ℕ → Bool) → (ℕ → Readings) → Cursors × Store → Cursors × Store
unfolding pass_all
run_once settings locked readings (cursors, store) =
    pass_all settings locked readings (filter (λ sim. is_running sim.status) store.simulations)
      (cursors, store)
