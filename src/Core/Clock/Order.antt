-- ===== src/Core/Clock/Order.antt =====
-- Virtual time never runs backwards.
use webhook_recovery.Prelude.{ℕ, ◌-◌, ◌*◌, ◌≤◌, ◌≡◌, refl, List, [], ◌∷◌, Option, none, some, arith}
use webhook_recovery.Core.Clock.{
  SimulationClockConfig, advance, to_micros, now_at, pause, resume, set_speed,
}
use webhook_recovery.Core.Clock.Continuity.{now_at-pause, now_at-resume, now_at-set_speed}

to_micros_mono : (m n : ℕ) → m ≤ n → to_micros m ≤ to_micros n
unfolding to_micros
to_micros_mono m n h = ground arith

mul_mono : (a b c : ℕ) → a ≤ b → a * c ≤ b * c
mul_mono a b c h = grind arith

-- For a given configuration, paused, running or done, a later wall time reads no earlier.
pub now_at_mono :
    (config : SimulationClockConfig) (earlier later : ℕ)
    → earlier ≤ later
    → now_at config earlier ≤ now_at config later
unfolding now_at advance
now_at_mono config earlier later h =
    let r = config.resumed_at_wall in
    let s = config.speed_multiplier in
    ground (
      arith,
      to_micros_mono ((earlier - r) * s) ((later - r) * s),
      mul_mono (earlier - r) (later - r) s,
      to_micros_mono ((r - later) * s) ((r - earlier) * s),
      mul_mono (r - later) (r - earlier) s,
    )

pub data Control : Type 0 where
  pauses resumes : Control
  sets_speed : (speed_multiplier : ℕ) → Control

-- A request for a speed that is refused leaves the clock as it was.
abbrev kept : SimulationClockConfig → Option SimulationClockConfig → SimulationClockConfig
kept config none = config
kept config (some config') = config'

abbrev pub control : SimulationClockConfig → ℕ → Control → SimulationClockConfig
control config at pauses = pause config at
control config at resumes = resume config at
control config at (sets_speed speed) = kept config (set_speed config speed at)

-- A history of controls, each at the wall time at which it is used.
abbrev pub controls : SimulationClockConfig → List (ℕ × Control) → SimulationClockConfig
controls config [] = config
controls config ((at, c) ∷ rest) = controls (control config at c) rest

-- The wall times of a history lie between two bounds and do not fall.
abbrev pub InOrder : ℕ → List (ℕ × Control) → ℕ → Type 0
InOrder from [] to = from ≤ to
InOrder from ((at, c) ∷ rest) to = (from ≤ at) × InOrder at rest to

kept-set_speed :
    (config : SimulationClockConfig) (speed at : ℕ) (r : Option SimulationClockConfig)
    → set_speed config speed at ≡ r
    → now_at (kept config r) at ≡ now_at config at
kept-set_speed config speed at none h = refl
kept-set_speed config speed at (some config') h = now_at-set_speed config config' speed at h

pub now_at-control :
    (config : SimulationClockConfig) (at : ℕ) (c : Control)
    → now_at (control config at c) at ≡ now_at config at
now_at-control config at pauses = now_at-pause config at
now_at-control config at resumes = now_at-resume config at
now_at-control config at (sets_speed speed) = kept-set_speed config speed at _ refl

-- Through any history of pauses, resumes and speed changes, used at wall times that do not fall,
-- the virtual time read at its end is no earlier than the one read at its start.
pub controls_mono :
    (config : SimulationClockConfig) (from to : ℕ) (history : List (ℕ × Control))
    → InOrder from history to
    → now_at config from ≤ now_at (controls config history) to
controls_mono config from to [] h = now_at_mono config from to h
controls_mono config from to ((at, c) ∷ rest) (h, ordered) = omega (
  arith,
  now_at_mono config from at h,
  now_at-control config at c,
  controls_mono (control config at c) at to rest ordered,
)
