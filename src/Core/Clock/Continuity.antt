-- ===== src/Core/Clock/Continuity.antt =====
-- Virtual time does not jump when a control of app/core/clock.py is used.
use webhook_recovery.Prelude.{ℕ, ◌≡◌, some, arith, false}
use webhook_recovery.Core.Enums.{is_paused}
use webhook_recovery.Core.Clock.{SimulationClockConfig, advance, now_at, pause, resume, set_speed}

-- No time passes in no time.
pub advance_none : (epoch at speed : ℕ) → advance epoch at at speed ≡ epoch
unfolding advance
advance_none epoch at speed = ground arith

-- A paused clock reads, at every later wall time, what it read when it was paused.
pub pause_freezes :
    (config : SimulationClockConfig) (at later : ℕ)
    → is_paused config.status ≡ false
    → now_at (pause config at) later ≡ now_at config at
unfolding pause now_at
pause_freezes config at later h = ground arith

-- For every status, a control leaves the reading at the moment of its use as it was.
pub now_at-pause :
    (config : SimulationClockConfig) (at : ℕ) → now_at (pause config at) at ≡ now_at config at
unfolding pause now_at
now_at-pause config at = ground arith

pub now_at-resume :
    (config : SimulationClockConfig) (at : ℕ) → now_at (resume config at) at ≡ now_at config at
unfolding resume now_at
now_at-resume config at = ground (arith, advance_none (now_at config at) at config.speed_multiplier)

pub now_at-set_speed :
    (config config' : SimulationClockConfig) (speed at : ℕ)
    → set_speed config speed at ≡ some config'
    → now_at config' at ≡ now_at config at
unfolding set_speed now_at
now_at-set_speed config config' speed at h =
    ground (arith, advance_none (now_at config at) at speed)
