-- ===== src/Worker/Service.antt =====
-- app/worker/service.py: a worker's pass over the running simulations, and how it honours a request
-- to crash.
pub mod Crash
pub mod Batch
use webhook_recovery.Prelude.{
  ℕ, ◌-◌, ◌≡◌, Bool, true, false, Option, none, some, List, [], ◌∷◌, map, filter, leb,
  if◌then◌else◌,
}
use webhook_recovery.Core.Enums.{is_running, is_paused}
use webhook_recovery.Core.Settings.{Settings}
use webhook_recovery.Core.Models.{Simulation, Store}
use webhook_recovery.Core.Clock.{from_row, now_at}
use webhook_recovery.Worker.Claim.{Claimed, claim_batch}
use webhook_recovery.Worker.Complete.{Completion, complete_batch}
use webhook_recovery.Worker.Transport.{AttemptResult}

-- `_CRASH_GRACE_S`: 5 s.
abbrev pub crash_grace : ℕ
crash_grace = 5_000_000

-- `_honour_crash_request` returns, with a new `_crash_seen_at`, or the process exits.
pub data Honoured : Type 0 where
  lives : (crash_seen_at : Option ℕ) → Honoured
  dies : Honoured

-- `asked` is what `crash.is_set()` says, `monotonic` what `time.monotonic()` reads. A worker without
-- a runner is one that is never asked.
pub honour_crash_request : Bool → Bool → ℕ → Option ℕ → Honoured
honour_crash_request false stranding monotonic seen = lives none
honour_crash_request true true monotonic seen = dies
honour_crash_request true false monotonic none = lives (some monotonic)
honour_crash_request true false monotonic (some seen) =
    if leb crash_grace (monotonic - seen) then dies else lives (some seen)

-- What a pass meets, for each simulation: what others commit before the claim and during the attempts,
-- the rows that others hold, what the wall clock reads at the claim and at the completion, whether the
-- worker is asked to crash, and what the attempts return.
pub record Surroundings : Type 0 where
  pub before : ℕ → Store → Store
  pub during : ℕ → Store → Store
  pub locked : ℕ → ℕ → Bool
  pub claim_at : ℕ → ℕ
  pub complete_at : ℕ → ℕ
  pub asked : ℕ → Bool
  pub attempt : ℕ → Claimed → AttemptResult
  pub asked_last : Bool
  pub monotonic : ℕ

-- A worker after a step of its pass: what the database holds and when it saw the request; or it is
-- dead, and what the database holds.
pub data Outcome : Type 0 where
  alive : (crash_seen_at : Option ℕ) (store : Store) → Outcome
  dead : (store : Store) → Outcome

abbrev pub store_of : Outcome → Store
store_of (alive seen store) = store
store_of (dead store) = store

-- What follows a step, unless the process has exited.
abbrev pub and_then : Outcome → (Option ℕ → Store → Outcome) → Outcome
and_then (alive seen store) next = next seen store
and_then (dead store) next = dead store

abbrev pub honoured : Honoured → Store → Outcome
honoured (lives seen) store = alive seen store
honoured dies store = dead store

abbrev pub complete_claim : (Claimed → AttemptResult) → Claimed → Completion
complete_claim attempt c =
    let result = attempt c in
    record { claimed = c; outcome = result.outcome; status_code = result.status_code }

-- Once the attempts are made, and others have committed what they do meanwhile: record every outcome.
abbrev pub answered :
    Settings → Simulation → ℕ → Surroundings → List Claimed → Option ℕ → Store → Outcome
answered settings sim worker_id around claimed seen store = alive seen (
    complete_batch settings worker_id (map (complete_claim (around.attempt sim.id)) claimed)
      (now_at (from_row sim) (around.complete_at sim.id)) (around.during sim.id store))

-- A batch that is claimed: from the check on the crash flag on.
unfoldable pub answer :
    Settings → Simulation → ℕ → Surroundings → Option ℕ → Store → List Claimed → Outcome
answer settings sim worker_id around seen store [] = alive seen store
answer settings sim worker_id around seen store (c ∷ cs) =
    and_then
      (honoured (honour_crash_request (around.asked sim.id) true around.monotonic seen) store)
      (answered settings sim worker_id around (c ∷ cs))

-- `_drain`
unfoldable pub drain : Settings → Simulation → ℕ → Surroundings → Option ℕ → Store → Outcome
drain settings sim worker_id around seen store =
    let (claimed_store, claimed) =
      claim_batch settings sim.id worker_id (now_at (from_row sim) (around.claim_at sim.id))
        settings.worker_batch_size (around.locked sim.id) (around.before sim.id store) in
    if is_paused sim.status
    then alive seen store
    else answer settings sim worker_id around seen claimed_store claimed

-- The loop of `run_once`, and the check after it.
unfoldable pub drain_all :
    Settings → ℕ → Surroundings → List Simulation → Option ℕ → Store → Outcome
drain_all settings worker_id around [] seen store =
    honoured (honour_crash_request around.asked_last false around.monotonic seen) store
drain_all settings worker_id around (sim ∷ sims) seen store =
    and_then (drain settings sim worker_id around seen store)
      (λ seen' store'. drain_all settings worker_id around sims seen' store')

unfoldable pub run_once : Settings → ℕ → Surroundings → Option ℕ → Store → Outcome
run_once settings worker_id around seen store =
    drain_all settings worker_id around (filter (λ sim. is_running sim.status) store.simulations)
      seen store
