-- ===== src/Conductor/Metrics/Cursor.antt =====
-- Which buckets a pass writes, and which no pass ever writes.
use native.Mathlib.Nat.{div-mul-le_self, mul-le-mul_right}
use webhook_recovery.Prelude.{
  ℕ, ◌+◌, ◌-◌, ◌*◌, ◌/◌, ◌≤◌, ◌<◌, ◌≡◌, refl, ◌∙◌, ◌⊎◌, inl, inr, true, some, List, [], ◌∷◌, arith,
  elem, Option-cases, max,
}
use webhook_recovery.Core.Settings.{Settings}
use webhook_recovery.Core.Models.{Store, MetricsSnapshot}
use webhook_recovery.Core.Clock.{virtual_epoch_zero}
use webhook_recovery.Conductor.Gauges.{Gauges}
use webhook_recovery.Conductor.Metrics.{
  Cursors, bucket_index, consumer_ids, next_bucket, span, write_span, write,
}
use webhook_recovery.Conductor.Metrics.Exact.{write_span-end}
use webhook_recovery.Conductor.Metrics.Series.{get_row, get_row-write_span}

-- When there are buckets to write, they come after the last one written, they are at most as many
-- as one pass may write, and the last of them ended at least one whole bucket before now.
pub span_bounds :
    (settings : Settings) (next now start end : ℕ)
    → span settings next now ≡ some (start, end)
    → (next ≤ start)
      × (end + 1 ≤ start + settings.metrics_max_backfill_buckets)
      × ((end + 1) * settings.metrics_bucket_virtual_s + settings.metrics_bucket_virtual_s
          ≤ now - virtual_epoch_zero)
unfolding span
span_bounds settings next now start end h =
    let s = settings.metrics_bucket_virtual_s in
    let x = now - virtual_epoch_zero in
    let fits : (end + 2) * s ≤ (x / s) * s =
      mul-le-mul_right {m = end + 2} {n = x / s} s (ground arith) in
    (ground arith, ground arith, omega (arith, fits, div-mul-le_self x s))

module _ (settings : Settings) (simulation_id : ℕ) where
  -- The cursor stands at a bucket, and stays there or goes on.
  abbrev AtLeast : ℕ → Cursors → Type 0
  AtLeast last cursors = (next : ℕ) × (last ≤ next) × (cursors simulation_id ≡ some next)

  next_bucket-some :
      (cursors : Cursors) (store : Store) (last : ℕ)
      → cursors simulation_id ≡ some last
      → next_bucket cursors store simulation_id ≡ last + 1
  unfolding next_bucket
  next_bucket-some cursors store last h = ground arith

  span_after :
      (cursors : Cursors) (store : Store) (now last start end : ℕ)
      → cursors simulation_id ≡ some last
      → span settings (next_bucket cursors store simulation_id) now ≡ some (start, end)
      → (last < start) × (last ≤ end)
  unfolding span
  span_after cursors store now last start end h e = (
    ground (arith, next_bucket-some cursors store last h),
    ground (arith, next_bucket-some cursors store last h),
  )

  write_span-cursors :
      (gauges : Gauges) (start end : ℕ) (cursors : Cursors) (store : Store)
      → let cursors' = (write_span settings simulation_id gauges start end cursors store).0 in
        (cursors' simulation_id ≡ cursors simulation_id) ⊎ (cursors' simulation_id ≡ some end)
  unfolding write_span
  write_span-cursors gauges start end cursors store = ground arith

  write_span-AtLeast :
      (gauges : Gauges) (start end last : ℕ) (cursors : Cursors) (store : Store)
      → cursors simulation_id ≡ some last
      → last ≤ end
      → AtLeast last (write_span settings simulation_id gauges start end cursors store).0
  write_span-AtLeast gauges start end last cursors store h le =
      elim (write_span-cursors gauges start end cursors store) [
        | inl e ↦ (last, omega arith, e ∙ h)
        | inr e ↦ (end, le, e)
      ]

  write-AtLeast :
      (now last : ℕ) (gauges : Gauges) (cursors : Cursors) (store : Store)
      → cursors simulation_id ≡ some last
      → AtLeast last (write settings simulation_id now gauges cursors store).0
  unfolding write
  write-AtLeast now last gauges cursors store h =
      elim (Option-cases (span settings (next_bucket cursors store simulation_id) now)) [
        | inl e ↦ rw (e, write) (last, omega arith, h)
        | inr ((start, end), e) ↦
            rw (e, write)
              (write_span-AtLeast gauges start end last cursors store h
                (span_after cursors store now last start end h e).1)
      ]

  -- What is at a bucket up to the cursor stays there.
  write_keeps :
      (now last : ℕ) (gauges : Gauges) (cursors : Cursors) (store : Store) (c b : ℕ)
      → cursors simulation_id ≡ some last
      → b ≤ last
      → get_row simulation_id
          (c, b)
          (write settings simulation_id now gauges cursors store).1.metrics
        ≡ get_row simulation_id (c, b) store.metrics
  unfolding write
  write_keeps now last gauges cursors store c b h le =
      elim (Option-cases (span settings (next_bucket cursors store simulation_id) now)) [
        | inl e ↦ rw (e, write) refl
        | inr ((start, end), e) ↦
            rw (e, write)
              (ground (
                arith,
                get_row-write_span settings store simulation_id gauges start end cursors c b,
                span_after cursors store now last start end h e,
              ))
      ]

  -- A pass: its time, its gauges and the database that it finds. It leaves the series to the next.
  abbrev pub Pass : Type 0
  Pass = ℕ × Gauges × Store

  abbrev pub passes : List Pass → Cursors → List MetricsSnapshot → List MetricsSnapshot
  passes [] cursors series = series
  passes ((now, gauges, found) ∷ rest) cursors series =
      let out =
        write settings simulation_id now gauges cursors (record found { metrics = series }) in
      passes rest out.0 out.1.metrics

  passes_keep :
      (ps : List Pass) (cursors : Cursors) (series : List MetricsSnapshot) (last c b : ℕ)
      → cursors simulation_id ≡ some last
      → b ≤ last
      → get_row simulation_id (c, b) (passes ps cursors series)
        ≡ get_row simulation_id (c, b) series
  passes_keep [] cursors series last c b h le = refl
  passes_keep ((now, gauges, found) ∷ rest) cursors series last c b h le =
      let store : Store = record found { metrics = series } in
      let (next, later, at_next) = write-AtLeast now last gauges cursors store h in
      let out = write settings simulation_id now gauges cursors store in
      passes_keep rest out.0 out.1.metrics next c b at_next (omega (arith, later))
      ∙ write_keeps now last gauges cursors store c b h le

  span_long :
      (cursors : Cursors) (store : Store) (now last b : ℕ)
      → cursors simulation_id ≡ some last
      → last < b
      → b + settings.metrics_max_backfill_buckets + 2
        ≤ bucket_index now settings.metrics_bucket_virtual_s
      → (start : ℕ) × (end : ℕ) × (span settings (next_bucket cursors store simulation_id) now
          ≡ some (start, end))
        × (b < start)
        × (b ≤ end)
  unfolding span
  span_long cursors store now last b h lo hi =
      let index = bucket_index now settings.metrics_bucket_virtual_s in
      (
        max (last + 1) (index - 2 + 1 - settings.metrics_max_backfill_buckets),
        index - 2,
        ground (arith, next_bucket-some cursors store last h),
        ground arith,
        ground arith,
      )

  write_past :
      (now : ℕ) (gauges : Gauges) (cursors : Cursors) (store : Store) (start end c b : ℕ)
      → span settings (next_bucket cursors store simulation_id) now ≡ some (start, end)
      → b < start
      → elem c (consumer_ids store simulation_id) ≡ true
      → let out = write settings simulation_id now gauges cursors store in
        (out.0 simulation_id ≡ some end)
        × (get_row simulation_id (c, b) out.1.metrics ≡ get_row simulation_id (c, b) store.metrics)
  unfolding write
  write_past now gauges cursors store start end c b e lo known =
      rw (e, write)
        (
          write_span-end settings store simulation_id gauges start end c cursors known,
          ground
              (arith, get_row-write_span settings store simulation_id gauges start end cursors c b),
        )

  -- When a pass of a run that has a consumer finds the series further behind than one pass may
  -- write, it leaves out the oldest buckets that are due, and neither it nor any pass that the same
  -- writer makes after it writes them: what the series holds there stays what it was.
  pub write_skips :
      (now last : ℕ) (gauges : Gauges) (cursors : Cursors) (store : Store) (later : List Pass)
      (c b : ℕ)
      → cursors simulation_id ≡ some last
      → last < b
      → b + settings.metrics_max_backfill_buckets + 2
        ≤ bucket_index now settings.metrics_bucket_virtual_s
      → elem c (consumer_ids store simulation_id) ≡ true
      → get_row simulation_id (c, b) (passes ((now, gauges, store) ∷ later) cursors store.metrics)
        ≡ get_row simulation_id (c, b) store.metrics
  write_skips now last gauges cursors store later c b h lo hi known =
      let (start, end, spanned, out_of, le) = span_long cursors store now last b h lo hi in
      let (at_end, same) = write_past now gauges cursors store start end c b spanned out_of known in
      let out = write settings simulation_id now gauges cursors store in
      passes_keep later out.0 out.1.metrics end c b at_end le ∙ same
