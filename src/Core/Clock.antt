-- ===== src/Core/Clock.antt =====
-- app/core/clock.py. A wall or virtual time is a number of microseconds since `datetime.min`, and a
-- speed a number of thousandths. The `at_wall` of the source is an argument: where it is left out
-- there, it is what the wall clock reads at the call.
pub mod Continuity
pub mod Order
use webhook_recovery.Prelude.{
  ℕ, suc, ◌+◌, ◌-◌, ◌*◌, ◌/◌, ◌%◌, Bool, Option, none, some, leb, ltb, ◌==◌, if◌then◌else◌,
}
use webhook_recovery.Core.Enums.{SimStatus, running, paused, is_running, is_paused}
use webhook_recovery.Core.Models.{Simulation}

-- 2024-01-01T00:00:00Z.
abbrev pub virtual_epoch_zero : ℕ
virtual_epoch_zero = 63_839_664_000_000_000

-- How long a paused clock's sleep blocks: 0.1 s of real time.
abbrev pub paused_poll_real : ℕ
paused_poll_real = 100_000

pub record SimulationClockConfig : Type 0 where
  pub status : SimStatus
  pub virtual_epoch : ℕ
  pub resumed_at_wall : ℕ
  pub paused_at_virtual : Option ℕ
  pub speed_multiplier : ℕ

abbrev pub from_row : Simulation → SimulationClockConfig
from_row row = record {
  status = row.status;
  virtual_epoch = row.virtual_epoch;
  resumed_at_wall = row.resumed_at_wall;
  paused_at_virtual = row.paused_at_virtual;
  speed_multiplier = row.speed_multiplier;
}

-- `VirtualClock.__init__`: `none` stands for its ValueError.
pub virtual_clock : SimulationClockConfig → Option SimulationClockConfig
virtual_clock config = if config.speed_multiplier == 0 then none else some config

-- A duration in billionths of a second, to the nearest microsecond, halves to even: what
-- `timedelta(seconds=...)` does with a product of microseconds by thousandths.
unfoldable pub to_micros : ℕ → ℕ
to_micros n =
    if ltb (2 * (n % 1000)) 1000
    then n / 1000
    else if ltb 1000 (2 * (n % 1000))
    then n / 1000 + 1
    else n / 1000 + (n / 1000) % 2

abbrev or_else : Option ℕ → ℕ → ℕ
or_else none d = d
or_else (some v) d = v

-- `virtual_epoch + timedelta(seconds=elapsed_real * speed_multiplier)`, for either sign of the
-- elapsed time.
unfoldable pub advance : ℕ → ℕ → ℕ → ℕ → ℕ
unfolding to_micros
advance epoch resumed_at at_wall speed =
    if leb resumed_at at_wall
    then epoch + to_micros ((at_wall - resumed_at) * speed)
    else epoch - to_micros ((resumed_at - at_wall) * speed)

unfoldable pub now_at : SimulationClockConfig → ℕ → ℕ
now_at config at_wall =
    if is_running config.status
    then advance config.virtual_epoch config.resumed_at_wall at_wall config.speed_multiplier
    else or_else config.paused_at_virtual config.virtual_epoch

-- `VirtualClock.sleep`: the real time that a virtual sleep takes.
pub sleep : SimulationClockConfig → ℕ → ℕ
sleep config virtual_seconds =
    if virtual_seconds == 0
    then 0
    else if is_paused config.status
    then paused_poll_real
    else (virtual_seconds * 1000) / config.speed_multiplier

pub start_config : ℕ → ℕ → SimulationClockConfig
start_config speed_multiplier at_wall = record {
  status = running;
  virtual_epoch = virtual_epoch_zero;
  resumed_at_wall = at_wall;
  paused_at_virtual = none;
  speed_multiplier = speed_multiplier;
}

unfoldable pub pause : SimulationClockConfig → ℕ → SimulationClockConfig
pause config at_wall =
    if is_paused config.status
    then config
    else record config { status = paused; paused_at_virtual = some (now_at config at_wall) }

unfoldable pub resume : SimulationClockConfig → ℕ → SimulationClockConfig
resume config at_wall =
    if is_paused config.status
    then record config {
      status = running;
      virtual_epoch = or_else config.paused_at_virtual config.virtual_epoch;
      resumed_at_wall = at_wall;
      paused_at_virtual = none;
    }
    else config

-- `none` stands for the ValueError on a speed that is not positive.
unfoldable pub set_speed : SimulationClockConfig → ℕ → ℕ → Option SimulationClockConfig
set_speed config speed_multiplier at_wall =
    if speed_multiplier == 0
    then none
    else if is_paused config.status
    then some (record config { speed_multiplier = speed_multiplier })
    else some (record config {
      virtual_epoch = now_at config at_wall;
      resumed_at_wall = at_wall;
      paused_at_virtual = none;
      speed_multiplier = speed_multiplier;
    })
