-- ===== src/Worker/Complete.antt =====
-- app/worker/claim.py, `complete_batch`: record the outcomes, fenced on the lease.
pub mod Fence
pub mod Answers
use webhook_recovery.Prelude.{
  ℕ, ◌+◌, Bool, true, false, ◌&&◌, Option, none, some, List, [], ◌∷◌, map, ltb, leb, ◌==◌,
  if◌then◌else◌, filter, elem, update_where, execute_many,
}
use webhook_recovery.Core.Enums.{AttemptOutcome, ok, delivered, failed, pending, is_in_flight}
use webhook_recovery.Core.Settings.{Settings}
use webhook_recovery.Core.Models.{Store, Delivery, Attempt, Reason, retry_cap}
use webhook_recovery.Worker.Backoff.{backoff_s}
use webhook_recovery.Worker.Claim.{Claimed}

-- A claimed delivery with the transport's result.
pub record Completion : Type 0 where
  pub claimed : Claimed
  pub outcome : AttemptOutcome
  pub status_code : Option ℕ

abbrev pub is_ok : AttemptOutcome → Bool
is_ok ok = true
is_ok _ = false

abbrev pub is_open : Attempt → Bool
is_open a = elim a.finished_at [ none ↦ true | some at ↦ false ]

abbrev pub finish : ℕ → Completion → Attempt → Attempt
finish now c a = record a {
  finished_at = some now;
  outcome = some c.outcome;
  status_code = c.status_code;
}

pub finish_attempts : ℕ → List Completion → List Attempt → List Attempt
finish_attempts now = execute_many (λ c a. a.id == c.claimed.attempt_id && is_open a) (finish now)

-- The three lists that the loop sorts the completions into.
abbrev pub is_delivered : Completion → Bool
is_delivered c = is_ok c.outcome

abbrev pub is_failed : Settings → Completion → Bool
is_failed settings c =
    if is_ok c.outcome then false else leb settings.max_attempts c.claimed.attempt_no

abbrev pub is_retry : Settings → Completion → Bool
is_retry settings c =
    if is_ok c.outcome then false else ltb c.claimed.attempt_no settings.max_attempts

-- `leased_by = worker_id`, which is not true of NULL.
abbrev pub leased_to : ℕ → Option ℕ → Bool
leased_to worker_id none = false
leased_to worker_id (some holder) = holder == worker_id

abbrev pub held : ℕ → Delivery → Bool
held worker_id d = is_in_flight d.state && leased_to worker_id d.leased_by

abbrev is_row_of : ℕ → Completion → Delivery → Bool
is_row_of worker_id c d = d.id == c.claimed.delivery_id && held worker_id d

abbrev pub deliver_row : ℕ → Delivery → Delivery
deliver_row now d = record d { state = delivered; completed_at = some now }

abbrev pub fail_row : ℕ → Completion → Delivery → Delivery
fail_row now c d = record d {
  state = failed;
  completed_at = some now;
  terminal_reason = some (retry_cap c.claimed.attempt_no);
}

abbrev pub retry_row : Settings → ℕ → Completion → Delivery → Delivery
retry_row settings now c d = record d {
  state = pending;
  next_attempt_at = some (now + backoff_s settings c.claimed.attempt_no);
}

pub settle : Settings → ℕ → ℕ → List Completion → List Delivery → List Delivery
settle settings worker_id now completions deliveries =
    let delivered_ids = map (λ c. c.claimed.delivery_id) (filter is_delivered completions) in
    execute_many (is_row_of worker_id) (retry_row settings now)
      (filter (is_retry settings) completions)
      (execute_many (is_row_of worker_id) (fail_row now) (filter (is_failed settings) completions) (
        update_where (λ d. elem d.id delivered_ids && held worker_id d) (deliver_row now)
          deliveries))

pub complete_batch : Settings → ℕ → List Completion → ℕ → Store → Store
unfolding finish_attempts settle
complete_batch settings worker_id completions now store = record store {
  attempts = finish_attempts now completions store.attempts;
  deliveries = settle settings worker_id now completions store.deliveries;
}
