-- ===== src/Conductor/Metrics.antt =====
-- app/conductor/metrics.py, `MetricsWriter`: the chart's series, one row per consumer and bucket.
pub mod Series
pub mod Exact
pub mod Cursor
pub mod Keeps
pub mod Tests
use webhook_recovery.Prelude.{
  ℕ, zero, suc, ◌+◌, ◌-◌, ◌*◌, ◌/◌, Bool, true, false, ◌&&◌, Option, none, some, List, [], ◌∷◌,
  ◌++◌, map, filter, count, order_by, ltb, leb, ◌==◌, if◌then◌else◌, max,
}
use webhook_recovery.Core.Enums.{
  DeliveryState, pending, ready, in_flight, delivered, expired, superseded, failed, state_eq,
}
use webhook_recovery.Core.Settings.{Settings}
use webhook_recovery.Core.Models.{Store, Consumer, Delivery, Attempt, MetricsSnapshot}
use webhook_recovery.Core.Clock.{virtual_epoch_zero}
use webhook_recovery.Conductor.Gauges.{Gauges, get_gauge}

abbrev pub complete_bucket_lag : ℕ
complete_bucket_lag = 2

-- A time before the start of the run, whose index is negative in the source, has index 0: like a
-- negative one, that is too early for any bucket to be complete.
abbrev pub bucket_index : ℕ → ℕ → ℕ
bucket_index virtual_time bucket_s = (virtual_time - virtual_epoch_zero) / bucket_s

-- `_last_written`, as the function that its `get` is.
abbrev pub Cursors : Type 0
Cursors = ℕ → Option ℕ

abbrev larger : ℕ → Option ℕ → ℕ
larger n none = n
larger n (some m) = max n m

-- `MAX(bucket_virtual_s)` over the rows of a simulation.
pub recover_cursor : List MetricsSnapshot → ℕ → Option ℕ
recover_cursor [] simulation_id = none
recover_cursor (row ∷ rows) simulation_id =
    let rest = recover_cursor rows simulation_id in
    if row.simulation_id == simulation_id then some (larger row.bucket_virtual_s rest) else rest

-- The instants of the buckets from `start` to `end`.
abbrev pub in_span : ℕ → ℕ → ℕ → ℕ → Bool
in_span bucket_s start end at =
    leb (virtual_epoch_zero + start * bucket_s) at
    && ltb at (virtual_epoch_zero + (end + 1) * bucket_s)

-- The count at `(consumer_id, bucket)` of `_attempts`.
pub attempts_in : Settings → Store → ℕ → ℕ → ℕ → ℕ → ℕ → ℕ
attempts_in settings store simulation_id start end consumer_id bucket =
    let bucket_s = settings.metrics_bucket_virtual_s in
    count
      (λ a.
        a.simulation_id == simulation_id
        && (in_span bucket_s start end a.started_at
            && (a.consumer_id == consumer_id && bucket_index a.started_at bucket_s == bucket)))
      store.attempts

-- The time of completion is in the span and in the bucket, which is not true of NULL.
abbrev pub completed_in : ℕ → ℕ → ℕ → ℕ → Option ℕ → Bool
completed_in bucket_s start end bucket none = false
completed_in bucket_s start end bucket (some at) =
    in_span bucket_s start end at && bucket_index at bucket_s == bucket

-- The count at `(consumer_id, bucket)` and a state of `_terminals`.
pub terminals_in : Settings → Store → ℕ → ℕ → ℕ → ℕ → ℕ → DeliveryState → ℕ
terminals_in settings store simulation_id start end consumer_id bucket state =
    count
      (λ d.
        d.simulation_id == simulation_id
        && (completed_in settings.metrics_bucket_virtual_s start end bucket d.completed_at
            && (d.consumer_id == consumer_id && state_eq d.state state)))
      store.deliveries

pub metric_row : Settings → Store → ℕ → Gauges → ℕ → ℕ → ℕ × ℕ → MetricsSnapshot
metric_row settings store simulation_id gauges start end (consumer_id, bucket) =
    let terminal = terminals_in settings store simulation_id start end consumer_id bucket in
    record {
      simulation_id = simulation_id;
      consumer_id = consumer_id;
      bucket_virtual_s = bucket;
      backlog =
          get_gauge gauges consumer_id pending
          + get_gauge gauges consumer_id ready
          + get_gauge gauges consumer_id in_flight;
      ready = get_gauge gauges consumer_id ready;
      in_flight = get_gauge gauges consumer_id in_flight;
      attempts = attempts_in settings store simulation_id start end consumer_id bucket;
      delivered = terminal delivered;
      expired = terminal expired;
      superseded = terminal superseded;
      failed = terminal failed;
    }

-- `n` numbers from `start` on.
abbrev pub range_from : ℕ → ℕ → List ℕ
range_from start zero = []
range_from start (suc n) = start ∷ range_from (start + 1) n

-- The cross product of the consumers and the buckets.
abbrev pub cells : List ℕ → List ℕ → List (ℕ × ℕ)
cells [] buckets = []
cells (c ∷ cs) buckets = map (λ b. (c, b)) buckets ++ cells cs buckets

abbrev pub is_at : ℕ → ℕ × ℕ → MetricsSnapshot → Bool
is_at simulation_id (consumer_id, bucket) row =
    row.simulation_id == simulation_id
    && (row.consumer_id == consumer_id && row.bucket_virtual_s == bucket)

-- `INSERT ... ON CONFLICT (simulation, consumer, bucket) DO UPDATE` of all the other columns.
pub upsert : MetricsSnapshot → List MetricsSnapshot → List MetricsSnapshot
upsert row [] = row ∷ []
upsert row (r ∷ rs) =
    if is_at row.simulation_id (row.consumer_id, row.bucket_virtual_s) r
    then row ∷ rs
    else r ∷ upsert row rs

pub upsert_all : List MetricsSnapshot → List MetricsSnapshot → List MetricsSnapshot
unfolding upsert
upsert_all [] table = table
upsert_all (row ∷ rows) table = upsert_all rows (upsert row table)

abbrev pub consumer_ids : Store → ℕ → List ℕ
consumer_ids store simulation_id =
    map (λ c. c.id)
      (order_by (λ c. c.id) (filter (λ c. c.simulation_id == simulation_id) store.consumers))

-- The bucket after the last one written: the memory's, else the table's, else the first.
pub next_bucket : Cursors → Store → ℕ → ℕ
next_bucket cursors store simulation_id = elim (cursors simulation_id) [
  | some last ↦ last + 1
  | none ↦ elim (recover_cursor store.metrics simulation_id) [ some last ↦ last + 1 | none ↦ 0 ]
]

-- The buckets that a pass writes: `start` and `end`, if there are any.
pub span : Settings → ℕ → ℕ → Option (ℕ × ℕ)
span settings next now =
    let index = bucket_index now settings.metrics_bucket_virtual_s in
    let end = index - complete_bucket_lag in
    if ltb index (next + complete_bucket_lag)
    then none
    else some (max next (end + 1 - settings.metrics_max_backfill_buckets), end)

abbrev set_cursor : Cursors → ℕ → ℕ → Cursors
set_cursor cursors simulation_id end id = if id == simulation_id then some end else cursors id

pub write_span : Settings → ℕ → Gauges → ℕ → ℕ → Cursors → Store → Cursors × Store
unfolding upsert_all
write_span settings simulation_id gauges start end cursors store =
    elim (consumer_ids store simulation_id) [
      | [] ↦ (cursors, store)
      | c ∷ cs ↦
          let rows =
            map (metric_row settings store simulation_id gauges start end)
              (cells (c ∷ cs) (range_from start (end + 1 - start))) in
          (
            set_cursor cursors simulation_id end,
            record store { metrics = upsert_all rows store.metrics },
          )
    ]

pub write : Settings → ℕ → ℕ → Gauges → Cursors → Store → Cursors × Store
unfolding write_span
write settings simulation_id now gauges cursors store =
    elim (span settings (next_bucket cursors store simulation_id) now) [
      | none ↦ (cursors, store)
      | some (start, end) ↦ write_span settings simulation_id gauges start end cursors store
    ]
