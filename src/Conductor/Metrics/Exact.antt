-- ===== src/Conductor/Metrics/Exact.antt =====
-- The rows that a pass writes, against plain counts over the tables.
use native.Mathlib.Nat.{le-div_iff_mul-le, div-lt_iff_lt-mul, mul-le-mul_right}
use webhook_recovery.Prelude.{
  ℕ, ◌+◌, ◌-◌, ◌*◌, leb, ltb, ◌≤◌, ◌<◌, ◌≡◌, refl, ◌∙◌, Bool, true, false, ◌&&◌, Option, none, some,
  List, [], ◌∷◌, ◌==◌, arith, elem, count,
}
use webhook_recovery.Core.Enums.{DeliveryState, delivered, expired, superseded, failed, state_eq}
use webhook_recovery.Core.Settings.{Settings}
use webhook_recovery.Core.Models.{Store, Delivery, Attempt, MetricsSnapshot}
use webhook_recovery.Core.Clock.{virtual_epoch_zero}
use webhook_recovery.Conductor.Gauges.{Gauges}
use webhook_recovery.Conductor.Metrics.{
  Cursors, bucket_index, in_span, completed_in, attempts_in, terminals_in, metric_row, consumer_ids,
  next_bucket, span, write_span, write,
}
use webhook_recovery.Conductor.Metrics.Series.{get_row, get_row-write_span}

abbrev pub in_bucket : ℕ → ℕ → ℕ → Bool
in_bucket bucket_s bucket at =
    leb (virtual_epoch_zero + bucket * bucket_s) at
    && ltb at (virtual_epoch_zero + (bucket + 1) * bucket_s)

abbrev pub ended_in : ℕ → ℕ → Option ℕ → Bool
ended_in bucket_s bucket none = false
ended_in bucket_s bucket (some at) = in_bucket bucket_s bucket at

-- The consumer's attempts of one bucket.
abbrev pub attempts_of_bucket : Settings → Store → ℕ → ℕ → ℕ → ℕ
attempts_of_bucket settings store simulation_id c b =
    count
      (λ a.
        a.simulation_id == simulation_id
        && (a.consumer_id == c && in_bucket settings.metrics_bucket_virtual_s b a.started_at))
      store.attempts

-- The consumer's deliveries that ended in a state in one bucket.
abbrev pub ends_of_bucket : Settings → Store → ℕ → ℕ → ℕ → DeliveryState → ℕ
ends_of_bucket settings store simulation_id c b state =
    count
      (λ d.
        d.simulation_id == simulation_id
        && (d.consumer_id == c
            && (ended_in settings.metrics_bucket_virtual_s b d.completed_at
                && state_eq d.state state)))
      store.deliveries

in_span-bucket :
    (s start end b at : ℕ)
    → 0 < s
    → start ≤ b
    → b ≤ end
    → (in_span s start end at && bucket_index at s == b) ≡ in_bucket s b at
in_span-bucket s start end b at pos lo hi =
    let x = at - virtual_epoch_zero in
    let low = le-div_iff_mul-le {k = s} {x = b} {y = x} pos in
    let high = div-lt_iff_lt-mul {k = s} {x = x} {y = b + 1} pos in
    ground (
      arith,
      low.0,
      low.1,
      high.0,
      high.1,
      mul-le-mul_right {m = start} {n = b} s lo,
      mul-le-mul_right {m = b + 1} {n = end + 1} s (omega arith),
    )

count_congr {ℓ} :
    {A : Type ℓ} (p q : A → Bool) → ((x : A) → p x ≡ q x) → (xs : List A) → count p xs ≡ count q xs
count_congr p q h [] = refl
count_congr p q h (x ∷ xs) = ground (arith, h x, count_congr p q h xs)

module _ (settings : Settings) (store : Store) (simulation_id start end c b : ℕ)
    (pos : 0 < settings.metrics_bucket_virtual_s) (lo : start ≤ b) (hi : b ≤ end) where
  abbrev bucket_s : ℕ
  bucket_s = settings.metrics_bucket_virtual_s

  attempts_in-exact :
      attempts_in settings store simulation_id start end c b
      ≡ attempts_of_bucket settings store simulation_id c b
  unfolding attempts_in
  attempts_in-exact =
      count_congr _ _
        (λ (a : Attempt).
          ground (arith, in_span-bucket bucket_s start end b a.started_at pos lo hi))
        store.attempts

  completed_in-exact :
      (at : Option ℕ) → completed_in bucket_s start end b at ≡ ended_in bucket_s b at
  completed_in-exact none = refl
  completed_in-exact (some at) = in_span-bucket bucket_s start end b at pos lo hi

  terminals_in-exact :
      (state : DeliveryState)
      → terminals_in settings store simulation_id start end c b state
        ≡ ends_of_bucket settings store simulation_id c b state
  unfolding terminals_in
  terminals_in-exact state =
      count_congr _ _ (λ (d : Delivery). ground (arith, completed_in-exact d.completed_at))
        store.deliveries

-- The counters of a row are the counts over its bucket.
pub record IsExact (settings : Settings) (store : Store) (simulation_id c b : ℕ)
    (row : MetricsSnapshot) : Type 0 where
  pub attempts_exact : row.attempts ≡ attempts_of_bucket settings store simulation_id c b
  pub delivered_exact : row.delivered ≡ ends_of_bucket settings store simulation_id c b delivered
  pub expired_exact : row.expired ≡ ends_of_bucket settings store simulation_id c b expired
  pub superseded_exact : row.superseded ≡ ends_of_bucket settings store simulation_id c b superseded
  pub failed_exact : row.failed ≡ ends_of_bucket settings store simulation_id c b failed

pub write_span-end :
    (settings : Settings) (store : Store) (simulation_id : ℕ) (gauges : Gauges) (start end c : ℕ)
    (cursors : Cursors)
    → elem c (consumer_ids store simulation_id) ≡ true
    → (write_span settings simulation_id gauges start end cursors store).0 simulation_id ≡ some end
unfolding write_span
write_span-end settings store simulation_id gauges start end c cursors h = ground arith

-- When a pass has the buckets from `start` to `end` to write, and buckets have a length, then
-- afterwards there is a row for each consumer of the simulation and each of those buckets, and its
-- five counters are exactly the consumer's attempts that started in the bucket and its deliveries
-- that ended there, by state. The cursor is then at `end`.
pub write-IsExact :
    (settings : Settings) (store : Store) (simulation_id now : ℕ) (gauges : Gauges)
    (cursors : Cursors) (start end c b : ℕ)
    → 0 < settings.metrics_bucket_virtual_s
    → span settings (next_bucket cursors store simulation_id) now ≡ some (start, end)
    → elem c (consumer_ids store simulation_id) ≡ true
    → start ≤ b
    → b ≤ end
    → let out = write settings simulation_id now gauges cursors store in
      (row : MetricsSnapshot) × (get_row simulation_id (c, b) out.1.metrics ≡ some row)
      × IsExact settings store simulation_id c b row
      × (out.0 simulation_id ≡ some end)
unfolding write metric_row
write-IsExact settings store simulation_id now gauges cursors start end c b pos spanned known lo
      hi =
    let terminal = terminals_in-exact settings store simulation_id start end c b pos lo hi in
    (
      metric_row settings store simulation_id gauges start end (c, b),
      rw (spanned, write)
          (get_row-write_span settings store simulation_id gauges start end cursors c b
            ∙ rw known (ground arith)),
      record {
        attempts_exact = attempts_in-exact settings store simulation_id start end c b pos lo hi;
        delivered_exact = terminal delivered;
        expired_exact = terminal expired;
        superseded_exact = terminal superseded;
        failed_exact = terminal failed;
      },
      rw (spanned, write)
          (write_span-end settings store simulation_id gauges start end c cursors known),
    )
