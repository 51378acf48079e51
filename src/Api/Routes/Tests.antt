-- ===== src/Api/Routes/Tests.antt =====
-- A paused run that a PATCH sets running, and a finished one.
use webhook_recovery.Prelude.{◌≡◌, refl, true, false, none, some}
use webhook_recovery.Core.Enums.{running, paused, done}
use webhook_recovery.Core.Models.{Simulation}
use webhook_recovery.Core.Clock.{from_row, now_at, advance, resume}
use webhook_recovery.Api.Routes.{SimulationPatch, apply_status, apply_speed, patch_simulation}
use webhook_recovery.Api.Routes.Patch.{patch_continuous, patch_revives}

abbrev stopped : Simulation
stopped = record {
  id = 1;
  status = paused;
  virtual_epoch = 1_000;
  resumed_at_wall = 50;
  paused_at_virtual = some 5_000;
  speed_multiplier = 20_000;
  fair_drain_enabled = true;
  global_attempts_per_s = 40_000;
  outage_override = none;
}

abbrev finished : Simulation
finished = record stopped { status = done }

abbrev go : SimulationPatch
go = record {
  status = some running;
  speed_multiplier = none;
  fair_drain_enabled = some false;
  global_attempts_per_s = none;
  outage_override = none;
}

abbrev going : Simulation
going = record stopped {
  status = running;
  virtual_epoch = 5_000;
  resumed_at_wall = 90;
  paused_at_virtual = none;
  fair_drain_enabled = false;
}

patch_continuous_example : now_at (from_row going) 90 ≡ now_at (from_row stopped) 90
unfolding patch_simulation apply_status apply_speed resume
patch_continuous_example = patch_continuous stopped going go 90 refl refl

patch_revives_example :
    (sim' : Simulation) × (patch_simulation finished go 90 ≡ some sim')
    × (now_at (from_row sim') 90 ≡ advance 1_000 50 90 20_000)
patch_revives_example = patch_revives finished go 90 refl refl refl
