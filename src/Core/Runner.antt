-- ===== src/Core/Runner.antt =====
-- app/core/runner.py: how a process that boots registers, `_register_when_ready`. Times are those of
-- the event loop's clock, which does not go back.
pub mod Tests
pub mod Ready
use webhook_recovery.Prelude.{
  ℕ, zero, suc, ◌+◌, ◌*◌, Bool, Option, none, some, leb, min, ◌||◌, if◌then◌else◌,
}

-- 120 s, 0.5 s and 5 s.
abbrev pub register_timeout : ℕ
register_timeout = 120_000_000

abbrev pub register_retry_initial : ℕ
register_retry_initial = 500_000

abbrev pub register_retry_max : ℕ
register_retry_max = 5_000_000

-- It returns, or raises what the last attempt raised.
pub data Registration : Type 0 where
  registered raised : Registration

-- What the attempts meet, by their number from 0: whether one succeeds and, after a failure, what
-- the loop's clock reads and whether a stop is requested.
pub record Boot : Type 0 where
  pub succeeds : ℕ → Bool
  pub time : ℕ → ℕ
  pub stops : ℕ → Bool

-- The `while True`, on fuel, from an attempt and the delay that would follow it.
pub attempts : Boot → ℕ → ℕ → ℕ → ℕ → Option Registration
attempts boot deadline attempt delay zero = none
attempts boot deadline attempt delay (suc fuel) =
    let rest = attempts boot deadline (suc attempt) (min (delay * 2) register_retry_max) fuel in
    if boot.succeeds attempt
    then some registered
    else if leb deadline (boot.time attempt) || boot.stops attempt
    then some raised
    else rest

pub register_when_ready : ℕ → Boot → ℕ → Option Registration
unfolding attempts
register_when_ready fuel boot started =
    attempts boot (started + register_timeout) 0 register_retry_initial fuel
