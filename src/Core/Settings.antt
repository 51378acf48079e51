-- ===== src/Core/Settings.antt =====
-- app/core/settings.py: the knobs that the modelled code reads. A duration in seconds is a number of
-- microseconds, and the one other fraction, the multiplier of the ready buffer, is in thousandths.
use webhook_recovery.Prelude.{ℕ}

pub record Settings : Type 0 where
  pub ready_buffer_depth_multiplier : ℕ
  pub fairness_window_virtual_s : ℕ
  pub admission_overfetch : ℕ
  pub metrics_bucket_virtual_s : ℕ
  pub metrics_max_backfill_buckets : ℕ
  pub worker_batch_size : ℕ
  pub lease_duration_virtual_s : ℕ
  pub retry_backoff_base_virtual_s : ℕ
  pub retry_backoff_cap_virtual_s : ℕ
  pub max_attempts : ℕ
  pub producer_max_catchup_virtual_s : ℕ
  pub default_speed_multiplier : ℕ
  pub process_liveness_window_s : ℕ

-- The values that the class declares.
abbrev pub default_settings : Settings
default_settings = record {
  ready_buffer_depth_multiplier = 1500;
  fairness_window_virtual_s = 5_000_000;
  admission_overfetch = 8;
  metrics_bucket_virtual_s = 1_000_000;
  metrics_max_backfill_buckets = 300;
  worker_batch_size = 16;
  lease_duration_virtual_s = 30_000_000;
  retry_backoff_base_virtual_s = 1_000_000;
  retry_backoff_cap_virtual_s = 60_000_000;
  max_attempts = 5;
  producer_max_catchup_virtual_s = 5_000_000;
  default_speed_multiplier = 20_000;
  process_liveness_window_s = 15_000_000;
}
