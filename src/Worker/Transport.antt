-- ===== src/Worker/Transport.antt =====
-- app/worker/transport.py: one attempt at a consumer. The random draws are a parameter, a function
-- of what the source seeds its generator with; a probability is a number of parts of 2 ^ 53.
use webhook_recovery.Prelude.{
  ℕ, ◌+◌, ◌-◌, ◌*◌, ◌≤◌, ◌≡◌, Bool, true, false, not, ◌&&◌, Option, none, some, ltb, leb,
  if◌then◌else◌, max, arith,
}
use webhook_recovery.Core.Enums.{AttemptOutcome, ok, server_error, timeout}

-- 5 s.
abbrev pub timeout_virtual : ℕ
timeout_virtual = 5_000_000

pub record ConsumerProfile : Type 0 where
  pub latency : ℕ
  pub jitter : ℕ
  pub failure_rate : ℕ
  pub down : Bool

-- What names an attempt; the event's type and key are carried and never read, and are left out.
pub record AttemptRequest : Type 0 where
  pub simulation_id : ℕ
  pub delivery_id : ℕ
  pub consumer_id : ℕ
  pub attempt_no : ℕ
  pub profile : ConsumerProfile

pub record AttemptResult : Type 0 where
  pub outcome : AttemptOutcome
  pub status_code : Option ℕ

-- The two draws of an attempt: how far the latency is above its least, and the chance.
pub record Draws : Type 0 where
  pub spread : ℕ
  pub chance : ℕ

-- How long the attempt sleeps, and its result. `uniform(-jitter, jitter)` is the spread less the
-- jitter, and a latency below 0 is 0.
pub attempt : (ℕ → ℕ → ℕ → Draws) → AttemptRequest → ℕ × AttemptResult
attempt draws request =
    let profile = request.profile in
    let drawn = draws request.simulation_id request.delivery_id request.attempt_no in
    if profile.down then (timeout_virtual, record { outcome = timeout; status_code = none }) else (
      profile.latency + drawn.spread - profile.jitter,
      if ltb drawn.chance profile.failure_rate
          then record { outcome = server_error; status_code = some 503 }
          else record { outcome = ok; status_code = some 200 },
    )

abbrev pub is_success : AttemptOutcome → Bool
is_success ok = true
is_success _ = false

-- With a spread of at most twice the jitter, an attempt sleeps no longer than the timeout or the
-- consumer's latency and jitter together, and it succeeds, with status 200, exactly if the consumer
-- is not down and the chance drawn is not below its failure rate.
pub attempt_bounded :
    (draws : ℕ → ℕ → ℕ → Draws) (request : AttemptRequest)
    → (draws request.simulation_id request.delivery_id request.attempt_no).spread
      ≤ 2 * request.profile.jitter
    → let (slept, result) = attempt draws request in
      let drawn = draws request.simulation_id request.delivery_id request.attempt_no in
      (slept ≤ max timeout_virtual (request.profile.latency + request.profile.jitter))
      × (is_success result.outcome
          ≡ (not request.profile.down && leb request.profile.failure_rate drawn.chance))
unfolding attempt
attempt_bounded draws request h = (ground arith, ground arith)
