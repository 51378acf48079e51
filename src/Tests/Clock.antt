-- ===== src/Tests/Clock.antt =====
-- The virtual clock at concrete readings.
use webhook_recovery.Prelude.{ℕ, ◌≤◌, List, [], ◌∷◌, arith}
use webhook_recovery.Core.Clock.{SimulationClockConfig, now_at, from_row}
use webhook_recovery.Core.Clock.Order.{
  Control, pauses, resumes, sets_speed, controls, controls_mono,
}
use webhook_recovery.Tests.Samples.{sample_sim}

abbrev config : SimulationClockConfig
config = from_row sample_sim

abbrev history : List (ℕ × Control)
history = (60, pauses) ∷ (70, sets_speed 5_000) ∷ (80, resumes) ∷ []

controls_mono_example : now_at config 55 ≤ now_at (controls config history) 90
controls_mono_example =
    controls_mono config 55 90 history (omega arith, (omega arith, (omega arith, omega arith)))
