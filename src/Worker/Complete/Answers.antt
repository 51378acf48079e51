-- ===== src/Worker/Complete/Answers.antt =====
-- What `complete_batch` writes into the row of a delivery, column by column.
use mathlib.Core.List.{Memᴰ}
use webhook_recovery.Prelude.{
  ℕ, ◌+◌, ◌≡◌, refl, subst, ◌∙◌, inl, inr, some, List, map, leb, if◌then◌else◌, ◌&&◌, Distinct,
  Memᴰ-map, map_key, Bool-cases,
}
use webhook_recovery.Core.Enums.{
  AttemptOutcome, ok, server_error, timeout, lease_expired, is_in_flight, delivered, failed,
  pending,
}
use webhook_recovery.Core.Settings.{Settings}
use webhook_recovery.Core.Models.{Store, Delivery, retry_cap}
use webhook_recovery.Worker.Backoff.{backoff_s, retry_delay, backoff_s-retry_delay}
use webhook_recovery.Worker.Complete.{
  Completion, is_ok, held, leased_to, deliver_row, complete_batch,
}
use webhook_recovery.Worker.Complete.Fence.{
  settle_row, settle_row-held, settle_row-unheld, settle_row-id, outcome_row,
  complete_batch-deliveries,
}

-- The row of a delivery after attempt `n`, made at `now`, came out as `outcome`.
abbrev pub answered_row : Settings → ℕ → AttemptOutcome → ℕ → Delivery → Delivery
answered_row settings now ok n d = record d { state = delivered; completed_at = some now }
answered_row settings now _ n d =
    if leb settings.max_attempts n
    then record d { state = failed; completed_at = some now; terminal_reason = some (retry_cap n) }
    else record d { state = pending; next_attempt_at = some (now + retry_delay settings n) }

module _ (settings : Settings) (worker_id now : ℕ) (completions : List Completion) where
  by_outcome :
      (o : AttemptOutcome) (n : ℕ) (d : Delivery)
      → (if is_ok o
          then deliver_row now d
          else if leb settings.max_attempts n
          then record d {
            state = failed;
            completed_at = some now;
            terminal_reason = some (retry_cap n);
          }
          else record d { state = pending; next_attempt_at = some (now + backoff_s settings n) })
        ≡ answered_row settings now o n d
  by_outcome ok n d = refl
  by_outcome server_error n d = rw (backoff_s-retry_delay settings n) refl
  by_outcome timeout n d = rw (backoff_s-retry_delay settings n) refl
  by_outcome lease_expired n d = rw (backoff_s-retry_delay settings n) refl

  outcome_row-answered :
      (c : Completion) (d : Delivery)
      → outcome_row settings worker_id now completions c d
        ≡ answered_row settings now c.outcome c.claimed.attempt_no d
  outcome_row-answered c d = by_outcome c.outcome c.claimed.attempt_no d

  -- What is recorded of an attempt. Of a batch without repetition that the worker `worker_id`
  -- completes, each delivery that a completion names, and that is in flight under that worker's own
  -- lease, gets its state, time, reason and next attempt from that completion, and keeps its other
  -- columns: delivered if it was ok, else failed at the retry cap, else pending until its backoff,
  -- capped, is over; one that is not in flight, or is leased to another, is left as it was. No row is
  -- inserted or deleted.
  pub complete_batch_answers :
      (store : Store) (c : Completion) (d : Delivery)
      → Distinct (map (λ x. x.claimed.delivery_id) completions)
      → Memᴰ c completions
      → Memᴰ d store.deliveries
      → d.id ≡ c.claimed.delivery_id
      → let rows = (complete_batch settings worker_id completions now store).deliveries in
        Memᴰ
          (if is_in_flight d.state && leased_to worker_id d.leased_by
            then answered_row settings now c.outcome c.claimed.attempt_no d
            else d)
          rows
        × (map (λ r. r.id) rows ≡ map (λ r. r.id) store.deliveries)
  complete_batch_answers store c d distinct m listed e =
      let row = settle_row settings worker_id now completions in
      let there = Memᴰ-map row d store.deliveries listed in
      let answer = answered_row settings now c.outcome c.claimed.attempt_no d in
      let own : row d ≡ (if held worker_id d then answer else d) =
        elim (Bool-cases (held worker_id d)) [
          | inl h ↦
              settle_row-held settings worker_id now completions c d distinct m e h
              ∙ outcome_row-answered c d
              ∙ rw h refl
          | inr h ↦ settle_row-unheld settings worker_id now completions d h ∙ rw h refl
        ] in
      rw (complete_batch-deliveries settings worker_id now completions store) (
        subst (λ x. Memᴰ x (map row store.deliveries)) own there,
        map_key (λ (r : Delivery). r.id) row (settle_row-id settings worker_id now completions)
            store.deliveries,
      )
