-- ===== src/System/Serves.antt =====
-- The worker's pass, app/worker/service.py, against the transactions of the system.
use webhook_recovery.Prelude.{ℕ, ◌≡◌, Option, []}
use webhook_recovery.Core.Settings.{Settings}
use webhook_recovery.Core.Models.{Simulation}
use webhook_recovery.Core.Clock.{from_row, now_at}
use webhook_recovery.Worker.Service.{Surroundings}
use webhook_recovery.System.Steps.{System, claimed_system}
use webhook_recovery.System.Orders.{IsMet}

module _ (settings : Settings) (worker_id : ℕ) (around : Surroundings)
    (before : (id : ℕ) (s : System) → IsMet settings worker_id (around.before id) s)
    (during : (id : ℕ) (s : System) → IsMet settings worker_id (around.during id) s) where
  module _ (s : System) (sim : Simulation) (seen : Option ℕ) (idle : s.batches worker_id ≡ []) where
    abbrev claim_time : ℕ
    claim_time = now_at (from_row sim) (around.claim_at sim.id)

    abbrev done_time : ℕ
    done_time = now_at (from_row sim) (around.complete_at sim.id)

    abbrev claimed_now : System
    claimed_now =
        claimed_system settings sim.id worker_id claim_time settings.worker_batch_size
          (around.locked sim.id) s
