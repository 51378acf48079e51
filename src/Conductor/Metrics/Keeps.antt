-- ===== src/Conductor/Metrics/Keeps.antt =====
-- A write touches the series alone.
use webhook_recovery.Prelude.{◌≡◌, ℕ, arith}
use webhook_recovery.Core.Settings.{Settings}
use webhook_recovery.Core.Models.{Store}
use webhook_recovery.Conductor.Gauges.{Gauges}
use webhook_recovery.Conductor.Metrics.{Cursors, write, write_span}

pub record IsKept (store store' : Store) : Type 0 where
  pub simulations : store'.simulations ≡ store.simulations
  pub deliveries : store'.deliveries ≡ store.deliveries
  pub attempts : store'.attempts ≡ store.attempts
  pub events : store'.events ≡ store.events
  pub next_delivery_id : store'.next_delivery_id ≡ store.next_delivery_id

module _ (settings : Settings) (simulation_id now : ℕ) (gauges : Gauges) (cursors : Cursors)
    (store : Store) where
  pub write-IsKept : IsKept store (write settings simulation_id now gauges cursors store).1
  unfolding write write_span
  write-IsKept = record {
    simulations = ground arith;
    deliveries = ground arith;
    attempts = ground arith;
    events = ground arith;
    next_delivery_id = ground arith;
  }
