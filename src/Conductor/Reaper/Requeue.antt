-- ===== src/Conductor/Reaper/Requeue.antt =====
-- What the sweep writes into the row of a delivery, column by column.
use webhook_recovery.Prelude.{
  ℕ, ◌+◌, ◌≡◌, ◌∙◌, Bool, false, not, ◌&&◌, none, some, map, arith, leb, ltb, ◌==◌, if◌then◌else◌,
  Distinct, map_congr_mem,
}
use webhook_recovery.Core.Enums.{pending, failed, is_in_flight}
use webhook_recovery.Core.Settings.{Settings}
use webhook_recovery.Core.Models.{Store, Delivery, lease_ran_out}
use webhook_recovery.Worker.Backoff.{retry_delay, backoff_s-retry_delay}
use webhook_recovery.Conductor.Reaper.{reclaim_expired_leases}
use webhook_recovery.Conductor.Reaper.Sweep.{reclaimed_row, reclaim_expired_leases-map}

-- A delivery whose lease has run out, after the sweep at `now`.
abbrev pub returned_row : Settings → ℕ → Delivery → Delivery
returned_row settings now d =
    if leb settings.max_attempts d.attempt_count
    then record d {
      state = failed;
      completed_at = some now;
      terminal_reason = some (lease_ran_out d.attempt_count settings.max_attempts);
      leased_by = none;
      lease_expires_at = none;
    }
    else record d {
      state = pending;
      next_attempt_at = some (now + retry_delay settings d.attempt_count);
      leased_by = none;
      lease_expires_at = none;
    }

-- In flight in the simulation, with a lease that ended before `now`.
abbrev pub is_overdue : ℕ → ℕ → Delivery → Bool
is_overdue simulation_id now d =
    d.simulation_id == simulation_id
    && (is_in_flight d.state && elim d.lease_expires_at [ none ↦ false | some at ↦ ltb at now ])

module _ (settings : Settings) (simulation_id now : ℕ) (locked : ℕ → Bool) (store : Store) where
  reclaimed-returned :
      (d : Delivery)
      → reclaimed_row settings simulation_id now locked d ≡ (
          if is_overdue simulation_id now d && not (locked d.id)
          then returned_row settings now d
          else d)
  reclaimed-returned d = rw (backoff_s-retry_delay settings d.attempt_count) (ground arith)

  -- The sweep of the reaper. With distinct ids, it changes exactly the rows of its simulation that
  -- are in flight with a lease that ended before `now` and that no other transaction holds: each
  -- loses its lease and goes back to pending until the backoff of its attempts, capped, is over, or,
  -- with its attempts used up, fails with the time and the reason; and keeps its other columns.
  pub reclaim_expired_leases-returned_row :
      Distinct (map (λ d. d.id) store.deliveries)
      → (reclaim_expired_leases settings simulation_id now locked store).0.deliveries
        ≡ map
            (λ d.
              if is_overdue simulation_id now d && not (locked d.id)
              then returned_row settings now d
              else d)
            store.deliveries
  reclaim_expired_leases-returned_row distinct =
      reclaim_expired_leases-map settings simulation_id now locked store distinct
      ∙ map_congr_mem _ _ store.deliveries (λ d m. reclaimed-returned d)
