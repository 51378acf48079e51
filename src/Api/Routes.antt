-- ===== src/Api/Routes.antt =====
-- app/api/routes.py: the lifecycle of a simulation, `patch_simulation`.
pub mod Patch
pub mod Tests
use webhook_recovery.Prelude.{ℕ, Bool, true, false, Option, none, some, ◌==◌, if◌then◌else◌}
use webhook_recovery.Core.Enums.{SimStatus, running, paused, done, is_running, is_paused, is_done}
use webhook_recovery.Core.Models.{Simulation}
use webhook_recovery.Core.Clock.{SimulationClockConfig, from_row, pause, resume, set_speed}

-- The body of the request: `none` where a field is left out.
pub record SimulationPatch : Type 0 where
  pub status : Option SimStatus
  pub speed_multiplier : Option ℕ
  pub fair_drain_enabled : Option Bool
  pub global_attempts_per_s : Option ℕ
  pub outage_override : Option Bool

abbrev pub status_eq : SimStatus → SimStatus → Bool
status_eq running running = true
status_eq paused paused = true
status_eq done done = true
status_eq _ _ = false

-- `x or y`, and an assignment under `is not None`.
abbrev pub or_keep {ℓ} : {A : Type ℓ} → Option A → A → A
or_keep none a = a
or_keep (some b) a = b

-- The clock operation for a status other than the current one. `done` freezes as `paused` does.
abbrev pub move_to : SimStatus → SimulationClockConfig → ℕ → SimulationClockConfig
move_to paused config at = pause config at
move_to running config at = resume config at
move_to done config at = pause config at

pub apply_status : Option SimStatus → SimStatus → SimulationClockConfig → ℕ → SimulationClockConfig
apply_status none current config at = config
apply_status (some status) current config at =
    if status_eq status current then config else move_to status config at

-- `none` stands for the ValueError of `set_speed`.
pub apply_speed : Option ℕ → SimulationClockConfig → ℕ → Option SimulationClockConfig
apply_speed none config at = some config
apply_speed (some speed) config at =
    if speed == config.speed_multiplier then some config else set_speed config speed at

abbrev pub write_back : Simulation → SimulationPatch → SimulationClockConfig → Simulation
write_back sim body config = record sim {
  status = or_keep body.status config.status;
  virtual_epoch = config.virtual_epoch;
  resumed_at_wall = config.resumed_at_wall;
  paused_at_virtual = config.paused_at_virtual;
  speed_multiplier = config.speed_multiplier;
  fair_drain_enabled = or_keep body.fair_drain_enabled sim.fair_drain_enabled;
  global_attempts_per_s = or_keep body.global_attempts_per_s sim.global_attempts_per_s;
  outage_override = elim body.outage_override [ none ↦ sim.outage_override | some b ↦ some b ];
}

pub patch_simulation : Simulation → SimulationPatch → ℕ → Option Simulation
unfolding apply_status apply_speed
patch_simulation sim body at =
    let config = apply_status body.status sim.status (from_row sim) at in
    elim (apply_speed body.speed_multiplier config at) [
      | none ↦ none
      | some config' ↦ some (write_back sim body config')
    ]
