-- ===== src/Conductor/Metrics/Tests.antt =====
-- A writer five seconds into the run, and one that comes back after four hundred.
use webhook_recovery.Prelude.{ℕ, ◌+◌, ◌-◌, ◌*◌, ◌≤◌, ◌≡◌, refl, some, [], ◌∷◌, arith}
use webhook_recovery.Core.Settings.{default_settings}
use webhook_recovery.Core.Models.{MetricsSnapshot}
use webhook_recovery.Core.Clock.{virtual_epoch_zero}
use webhook_recovery.Conductor.Metrics.{Cursors, next_bucket, span, write}
use webhook_recovery.Conductor.Metrics.Series.{get_row}
use webhook_recovery.Conductor.Metrics.Exact.{IsExact, write-IsExact}
use webhook_recovery.Conductor.Metrics.Cursor.{span_bounds, passes, write_skips}
use webhook_recovery.Tests.Samples.{sample_store}

abbrev at_zero : Cursors
at_zero id = some 0

abbrev five_seconds : ℕ
five_seconds = virtual_epoch_zero + 5_000_000

abbrev late : ℕ
late = virtual_epoch_zero + 400_000_000

span_bounds_example :
    (1 ≤ 1)
    × (4 ≤ 1 + default_settings.metrics_max_backfill_buckets)
    × (4 * default_settings.metrics_bucket_virtual_s + default_settings.metrics_bucket_virtual_s
        ≤ five_seconds - virtual_epoch_zero)
unfolding span
span_bounds_example = span_bounds default_settings 1 five_seconds 1 3 refl

write-IsExact_example :
    let out = write default_settings 1 five_seconds [] at_zero sample_store in
    (row : MetricsSnapshot) × (get_row 1 (2, 3) out.1.metrics ≡ some row)
    × IsExact default_settings sample_store 1 2 3 row
    × (out.0 1 ≡ some 3)
unfolding span next_bucket
write-IsExact_example =
    write-IsExact default_settings sample_store 1 five_seconds [] at_zero 1 3 2 3 (omega arith) refl
      refl (omega arith) (omega arith)

write_skips_example :
    get_row 1
      (2, 50)
      (passes default_settings 1
        ((late, [], sample_store) ∷ (late + 1, [], sample_store) ∷ [])
        at_zero
        [])
    ≡ get_row 1 (2, 50) []
write_skips_example =
    write_skips default_settings 1 late 0 [] at_zero sample_store
      ((late + 1, [], sample_store) ∷ []) 2 50 refl (omega arith) (omega arith) refl
