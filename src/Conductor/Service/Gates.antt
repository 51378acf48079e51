-- ===== src/Conductor/Service/Gates.antt =====
-- The two early ends of a pass: an outage, and a run that is over.
use webhook_recovery.Prelude.{
  ℕ, ◌-◌, ◌≡◌, refl, ap, ◌∙◌, Bool, true, ◌&&◌, ◌==◌, map, arith, Distinct, count, if◌then◌else◌,
}
use webhook_recovery.Core.Enums.{is_active, is_done}
use webhook_recovery.Core.Settings.{Settings}
use webhook_recovery.Core.Models.{Simulation, Store}
use webhook_recovery.Core.Clock.{from_row, now_at, virtual_epoch_zero}
use webhook_recovery.Core.Scenario.{is_finished, is_outage}
use webhook_recovery.Conductor.Gauges.{Gauges, read_gauges, total_backlog}
use webhook_recovery.Conductor.Gauges.Exact.{total_backlog-read_gauges}
use webhook_recovery.Conductor.Metrics.{Cursors, write}
use webhook_recovery.Conductor.Metrics.Keeps.{write-IsKept}
use webhook_recovery.Conductor.Reaper.{reclaim_expired_leases}
use webhook_recovery.Conductor.Reaper.Sweep.{
  reclaimed_row, reclaim_expired_leases-map, reclaim_expired_leases-simulations,
}
use webhook_recovery.Conductor.Service.{Readings, retire_row, retire, decide, pass}

decide_waits :
    (settings : Settings) (sim : Simulation) (now elapsed : ℕ) (gauges : Gauges) (store : Store)
    → is_outage elapsed sim.outage_override ≡ true
    → (decide settings sim now elapsed gauges store).deliveries ≡ store.deliveries
unfolding decide retire
decide_waits settings sim now elapsed gauges store h = ground arith

decide_retires :
    (settings : Settings) (sim : Simulation) (now elapsed : ℕ) (gauges : Gauges) (store : Store)
    → is_finished elapsed (total_backlog gauges) ≡ true
    → decide settings sim now elapsed gauges store ≡ retire sim.id now store
unfolding decide
decide_retires settings sim now elapsed gauges store h = ground arith

module _ (settings : Settings) (locked : ℕ → Bool) (sim : Simulation) (at : Readings)
    (cursors : Cursors) (store : Store) where
  abbrev now : ℕ
  now = now_at (from_row sim) at.0

  abbrev elapsed : ℕ
  elapsed = now_at (from_row sim) at.1 - virtual_epoch_zero

  abbrev reclaimed : Store
  reclaimed = (reclaim_expired_leases settings sim.id now locked store).0

  abbrev gauges : Gauges
  gauges = read_gauges sim.id reclaimed.deliveries

  abbrev measured : Store
  measured = (write settings sim.id now gauges cursors reclaimed).1

  -- While the scenario or its override has an outage, with distinct deliveries, a pass admits and
  -- drops nothing: the deliveries after it are those before it, but for the leases that ran out,
  -- which are reclaimed through the outage too.
  pub pass_outage :
      Distinct (map (λ d. d.id) store.deliveries)
      → is_outage (now_at (from_row sim) at.1 - virtual_epoch_zero) sim.outage_override ≡ true
      → (pass settings locked sim at (cursors, store)).1.deliveries
        ≡ map (reclaimed_row settings sim.id (now_at (from_row sim) at.0) locked) store.deliveries
  unfolding pass
  pass_outage u h =
      decide_waits settings sim now elapsed gauges measured h
      ∙ (write-IsKept settings sim.id now gauges cursors reclaimed).deliveries
      ∙ reclaim_expired_leases-map settings sim.id now locked store u

  -- When a run is over, going by the deliveries that are still active once the sweep is done, its
  -- pass retires it and no other run: the row is done, and its clock reads the time of the pass
  -- from then on, whatever the wall clock reads.
  pub pass_retires :
      let now = now_at (from_row sim) at.0 in
      let left = (reclaim_expired_leases settings sim.id now locked store).0.deliveries in
      let active = count (λ d. d.simulation_id == sim.id && is_active d.state) left in
      is_finished (now_at (from_row sim) at.1 - virtual_epoch_zero) active ≡ true
      → ((pass settings locked sim at (cursors, store)).1.simulations
          ≡ map (λ s. if s.id == sim.id then retire_row now s else s) store.simulations)
        × ((s : Simulation)
            → (is_done (retire_row now s).status ≡ true)
              × ((later : ℕ) → now_at (from_row (retire_row now s)) later ≡ now))
  unfolding pass retire now_at
  pass_retires h = (
    ap (λ (s : Store). s.simulations)
          (decide_retires settings sim now elapsed gauges measured
            (ap (is_finished elapsed) (total_backlog-read_gauges sim.id reclaimed.deliveries) ∙ h))
        ∙ ap (map (λ (s : Simulation). if s.id == sim.id then retire_row now s else s)) (
            (write-IsKept settings sim.id now gauges cursors reclaimed).simulations
            ∙ reclaim_expired_leases-simulations settings sim.id now locked store),
    λ s. (refl, λ later. refl),
  )
