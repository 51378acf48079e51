-- ===== src/Conductor/Service/Tests.antt =====
-- Passes over the sample run: five minutes in, in the outage, and at its end.
use webhook_recovery.Prelude.{
  ℕ, ◌+◌, ◌≡◌, refl, true, none, some, [], ◌∷◌, map, if◌then◌else◌, ◌==◌,
}
use webhook_recovery.Core.Enums.{delivered, is_done}
use webhook_recovery.Core.Settings.{default_settings}
use webhook_recovery.Core.Models.{Simulation, Store, Delivery}
use webhook_recovery.Core.Clock.{advance, to_micros, virtual_epoch_zero, from_row, now_at}
use webhook_recovery.Core.Scenario.{is_finished, is_outage}
use webhook_recovery.Conductor.Metrics.{Cursors}
use webhook_recovery.Conductor.Reaper.Sweep.{reclaimed_row}
use webhook_recovery.Conductor.Service.{Readings, retire_row, pass, run_once}
use webhook_recovery.Conductor.Service.Admit.{ids_of}
use webhook_recovery.Conductor.Service.Run.{attempt_ids, run_once-ids}
use webhook_recovery.Conductor.Service.Gates.{pass_outage, pass_retires}
use webhook_recovery.Tests.Samples.{
  sample_sim, sample_store, sample_distinct, none_locked, delivery_at,
}

abbrev unwritten : Cursors
unwritten id = none

abbrev at_once : Readings
at_once = (50, 50)

abbrev in_outage : Simulation
in_outage = record sample_sim {
  virtual_epoch = virtual_epoch_zero + 300_000_000;
  outage_override = some true;
}

abbrev sent : Delivery
sent = delivery_at 9 90 delivered (some 7) (some 400)

abbrev with_sent : Store
with_sent = record sample_store { deliveries = sent ∷ sample_store.deliveries }

abbrev over : Simulation
over = record sample_sim { virtual_epoch = virtual_epoch_zero + 2_000_000_000 }

run_once-ids_example :
    let out = (run_once default_settings none_locked (λ id. at_once) (unwritten, sample_store)).1 in
    (ids_of out.deliveries ≡ ids_of sample_store.deliveries)
    × (attempt_ids out.attempts ≡ attempt_ids sample_store.attempts)
    × (out.events ≡ [])
run_once-ids_example =
    run_once-ids default_settings none_locked (λ id. at_once) unwritten sample_store sample_distinct

pass_outage_example :
    (pass default_settings none_locked in_outage at_once (unwritten, sample_store)).1.deliveries
    ≡ map
        (reclaimed_row default_settings 1 (now_at (from_row in_outage) 50) none_locked)
        sample_store.deliveries
unfolding is_outage
pass_outage_example =
    pass_outage default_settings none_locked in_outage at_once unwritten sample_store
      sample_distinct refl

pass_retires_example :
    let now = now_at (from_row over) 50 in
    ((pass default_settings none_locked over at_once (unwritten, sample_store)).1.simulations
      ≡ map (λ s. if s.id == 1 then retire_row now s else s) sample_store.simulations)
    × ((s : Simulation)
        → (is_done (retire_row now s).status ≡ true)
          × ((later : ℕ) → now_at (from_row (retire_row now s)) later ≡ now))
unfolding is_finished now_at advance to_micros
pass_retires_example =
    pass_retires default_settings none_locked over at_once unwritten sample_store refl
