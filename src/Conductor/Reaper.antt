-- ===== src/Conductor/Reaper.antt =====
-- app/conductor/reaper.py: returning the deliveries whose lease has run out.
pub mod Sweep
pub mod Requeue
use webhook_recovery.Prelude.{
  ℕ, ◌+◌, Bool, true, false, not, ◌&&◌, Option, none, some, List, map, ltb, leb, ◌==◌, filter, elem,
  update_where, execute_many, length,
}
use webhook_recovery.Core.Enums.{AttemptOutcome, lease_expired, pending, failed, is_in_flight}
use webhook_recovery.Core.Settings.{Settings}
use webhook_recovery.Core.Models.{Store, Delivery, Attempt, lease_ran_out}
use webhook_recovery.Worker.Backoff.{backoff_s}
use webhook_recovery.Worker.Complete.{is_open}

pub record Reclaimed : Type 0 where
  pub requeued : ℕ
  pub exhausted : ℕ

abbrev pub total : Reclaimed → ℕ
total r = r.requeued + r.exhausted

-- `lease_expires_at < now`, which is not true of NULL.
abbrev pub ran_out : ℕ → Option ℕ → Bool
ran_out now none = false
ran_out now (some at) = ltb at now

abbrev pub is_expired : ℕ → ℕ → Delivery → Bool
is_expired simulation_id now d =
    d.simulation_id == simulation_id && (is_in_flight d.state && ran_out now d.lease_expires_at)

-- The rows that the sweep takes: `locked` says which ones another transaction holds.
abbrev pub swept : ℕ → ℕ → (ℕ → Bool) → Delivery → Bool
swept simulation_id now locked d = is_expired simulation_id now d && not (locked d.id)

abbrev pub is_exhausted : Settings → Delivery → Bool
is_exhausted settings d = leb settings.max_attempts d.attempt_count

abbrev pub requeue_row : Settings → ℕ → Delivery → Delivery → Delivery
requeue_row settings now row d = record d {
  state = pending;
  next_attempt_at = some (now + backoff_s settings row.attempt_count);
  leased_by = none;
  lease_expires_at = none;
}

abbrev pub exhaust_row : Settings → ℕ → Delivery → Delivery → Delivery
exhaust_row settings now row d = record d {
  state = failed;
  completed_at = some now;
  terminal_reason = some (lease_ran_out row.attempt_count settings.max_attempts);
  leased_by = none;
  lease_expires_at = none;
}

abbrev same_id : Delivery → Delivery → Bool
same_id row d = d.id == row.id

pub reclaim_rows : Settings → ℕ → List Delivery → List Delivery → List Delivery
reclaim_rows settings now rows deliveries =
    execute_many same_id (exhaust_row settings now) (filter (is_exhausted settings) rows) (
      execute_many same_id (requeue_row settings now)
        (filter (λ row. not (is_exhausted settings row)) rows) deliveries)

pub close_attempts : ℕ → List ℕ → List Attempt → List Attempt
close_attempts now delivery_ids =
    update_where (λ a. elem a.delivery_id delivery_ids && is_open a)
      (λ a. record a { finished_at = some now; outcome = some lease_expired })

-- With no row to reclaim the statements of the source are not run: over no row they write nothing.
pub reclaim_expired_leases : Settings → ℕ → ℕ → (ℕ → Bool) → Store → Store × Reclaimed
unfolding reclaim_rows close_attempts
reclaim_expired_leases settings simulation_id now locked store =
    let rows = filter (swept simulation_id now locked) store.deliveries in
    (
      record store {
        deliveries = reclaim_rows settings now rows store.deliveries;
        attempts = close_attempts now (map (λ row. row.id) rows) store.attempts;
      },
      record {
        requeued = length (filter (λ row. not (is_exhausted settings row)) rows);
        exhausted = length (filter (is_exhausted settings) rows);
      },
    )
