-- ===== src/Tests/Worker.antt =====
-- Claims, completions and sweeps at the sample run.
use mathlib.Core.List.{Memᴰ}
use mathlib.Core.List.Memᴰ.{head}
use webhook_recovery.Prelude.{
  if◌then◌else◌, not, ◌&&◌, ◌≡◌, refl, ◌≤◌, some, [], ◌∷◌, map, length, All, Distinct, count,
}
use webhook_recovery.Core.Enums.{lease_expired}
use webhook_recovery.Core.Settings.{default_settings}
use webhook_recovery.Conductor.Reaper.{swept, total, reclaim_expired_leases}
use webhook_recovery.Conductor.Reaper.Sweep.{reclaimed_row, reclaim_expired_leases_complete}
use webhook_recovery.Worker.Claim.{claim_batch}
use webhook_recovery.Worker.Claim.Exclusive.{Taken, claim_batch-Taken}
use webhook_recovery.Worker.Complete.{complete_batch}
use webhook_recovery.Worker.Complete.Answers.{answered_row, complete_batch_answers}
use webhook_recovery.Conductor.Reaper.Requeue.{
  is_overdue, returned_row, reclaim_expired_leases-returned_row,
}
use webhook_recovery.System.Late.{late_completion}
use webhook_recovery.Tests.Samples.{
  flying, started, sample_store, refused, accepted, none_locked, sample_distinct,
}

late_completion_example :
    Memᴰ
      (reclaimed_row default_settings 1 600 none_locked flying)
      (complete_batch default_settings 7
        (accepted ∷ [])
        700
        (reclaim_expired_leases default_settings 1 600 none_locked sample_store).0).deliveries
    × Memᴰ
        (record started { finished_at = some 600; outcome = some lease_expired })
        (complete_batch default_settings 7
          (accepted ∷ [])
          700
          (reclaim_expired_leases default_settings 1 600 none_locked sample_store).0).attempts
late_completion_example =
    late_completion default_settings 1 600 none_locked sample_store sample_distinct 7 700
      (accepted ∷ []) flying started (head refl) refl (head refl) refl refl

claim_batch-Taken_example :
    let out = claim_batch default_settings 1 7 600 8 none_locked sample_store in
    (length out.1 ≤ 8)
    × Distinct (map (λ c. c.delivery_id) out.1)
    × All (Taken default_settings 1 7 600 8 none_locked sample_store sample_distinct out.0) out.1
claim_batch-Taken_example =
    claim_batch-Taken default_settings 1 7 600 8 none_locked sample_store sample_distinct

complete_batch_answers_example :
    let rows = (complete_batch default_settings 7 (refused ∷ []) 400 sample_store).deliveries in
    Memᴰ (answered_row default_settings 400 refused.outcome refused.claimed.attempt_no flying) rows
    × (map (λ r. r.id) rows ≡ map (λ r. r.id) sample_store.deliveries)
complete_batch_answers_example =
    complete_batch_answers default_settings 7 400 (refused ∷ []) sample_store refused flying
      (refl, tt) (head refl) (head refl) refl

reclaim_expired_leases-returned_row_example :
    (reclaim_expired_leases default_settings 1 600 none_locked sample_store).0.deliveries
    ≡ map
        (λ d.
          if is_overdue 1 600 d && not (none_locked d.id)
          then returned_row default_settings 600 d
          else d)
        sample_store.deliveries
reclaim_expired_leases-returned_row_example =
    reclaim_expired_leases-returned_row default_settings 1 600 none_locked sample_store
      sample_distinct

reclaim_expired_leases_complete_example :
    let out = reclaim_expired_leases default_settings 1 600 none_locked sample_store in
    (count (swept 1 600 none_locked) out.0.deliveries ≡ 0)
    × (total out.1 ≡ count (swept 1 600 none_locked) sample_store.deliveries)
reclaim_expired_leases_complete_example =
    reclaim_expired_leases_complete default_settings 1 600 none_locked sample_store sample_distinct
