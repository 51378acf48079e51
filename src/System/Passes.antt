-- ===== src/System/Passes.antt =====
-- A worker's pass, app/worker/service.py, keeps what every step keeps.
use webhook_recovery.Core.Settings.{Settings}
use webhook_recovery.System.Steps.{System, Reach}
use webhook_recovery.System.Orders.{Serves}
