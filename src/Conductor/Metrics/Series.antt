-- ===== src/Conductor/Metrics/Series.antt =====
-- What a pass leaves at each point of the series.
use webhook_recovery.Prelude.{
  ℕ, zero, suc, ◌+◌, ◌-◌, ◌≡◌, refl, ap, ◌∙◌, inl, inr, Bool, true, false, ◌&&◌, ◌||◌, Option, none,
  some, List, [], ◌∷◌, ◌++◌, map, ltb, leb, ◌==◌, ==_iff, if◌then◌else◌, arith, elem, Bool-cases,
}
use webhook_recovery.Core.Settings.{Settings}
use webhook_recovery.Core.Models.{Store, MetricsSnapshot}
use webhook_recovery.Conductor.Gauges.{Gauges}
use webhook_recovery.Conductor.Metrics.{
  Cursors, is_at, upsert, upsert_all, metric_row, cells, range_from, consumer_ids, write_span,
}

-- The row of the table at a consumer and a bucket.
pub get_row : ℕ → ℕ × ℕ → List MetricsSnapshot → Option MetricsSnapshot
get_row simulation_id cell [] = none
get_row simulation_id cell (row ∷ rows) =
    if is_at simulation_id cell row then some row else get_row simulation_id cell rows

abbrev same_cell : ℕ × ℕ → ℕ × ℕ → Bool
same_cell (c, b) (c', b') = c == c' && b == b'

abbrev elem_cell : ℕ × ℕ → List (ℕ × ℕ) → Bool
elem_cell cell [] = false
elem_cell cell (p ∷ ps) = same_cell p cell || elem_cell cell ps

same_cell_iff : (p q : ℕ × ℕ) → same_cell p q ≡ true → p ≡ q
same_cell_iff (c, b) (c', b') h =
    ap (λ x. (x, b)) ((==_iff c c').0 (ground arith))
    ∙ ap (λ x. (c', x)) ((==_iff b b').0 (ground arith))

get_row-upsert :
    (simulation_id c b : ℕ) (row : MetricsSnapshot) (table : List MetricsSnapshot)
    → get_row simulation_id (c, b) (upsert row table)
      ≡ (if is_at simulation_id (c, b) row then some row else get_row simulation_id (c, b) table)
unfolding get_row upsert
get_row-upsert simulation_id c b row [] = refl
get_row-upsert simulation_id c b row (r ∷ rs) =
    ground (arith, get_row-upsert simulation_id c b row rs)

module _ (settings : Settings) (store : Store) (simulation_id : ℕ) (gauges : Gauges)
    (start end : ℕ) where
  abbrev row_at : ℕ × ℕ → MetricsSnapshot
  row_at = metric_row settings store simulation_id gauges start end

  is_at-row_at : (c b : ℕ) (p : ℕ × ℕ) → is_at simulation_id (c, b) (row_at p) ≡ same_cell p (c, b)
  unfolding metric_row
  is_at-row_at c b (c', b') = ground arith

  pub get_row-upsert_all :
      (c b : ℕ) (ps : List (ℕ × ℕ)) (table : List MetricsSnapshot)
      → get_row simulation_id (c, b) (upsert_all (map row_at ps) table)
        ≡ (if elem_cell (c, b) ps then some (row_at (c, b)) else get_row simulation_id (c, b) table)
  unfolding upsert_all
  get_row-upsert_all c b [] table = refl
  get_row-upsert_all c b (p ∷ ps) table = elim (Bool-cases (same_cell p (c, b))) [
    | inl e ↦ ground (
      arith,
      get_row-upsert_all c b ps (upsert (row_at p) table),
      get_row-upsert simulation_id c b (row_at p) table,
      is_at-row_at c b p,
      ap row_at (same_cell_iff p (c, b) e),
    )
    | inr e ↦ ground (
      arith,
      get_row-upsert_all c b ps (upsert (row_at p) table),
      get_row-upsert simulation_id c b (row_at p) table,
      is_at-row_at c b p,
    )
  ]

elem_cell-append :
    (cell : ℕ × ℕ) (ps qs : List (ℕ × ℕ))
    → elem_cell cell (ps ++ qs) ≡ (elem_cell cell ps || elem_cell cell qs)
elem_cell-append cell [] qs = refl
elem_cell-append cell (p ∷ ps) qs = ground (arith, elem_cell-append cell ps qs)

elem_cell-map :
    (c' c b : ℕ) (bs : List ℕ) → elem_cell (c, b) (map (λ x. (c', x)) bs) ≡ (c' == c && elem b bs)
elem_cell-map c' c b [] = ground arith
elem_cell-map c' c b (x ∷ bs) = ground (arith, elem_cell-map c' c b bs)

elem_cell-cells :
    (c b : ℕ) (cs bs : List ℕ) → elem_cell (c, b) (cells cs bs) ≡ (elem c cs && elem b bs)
elem_cell-cells c b [] bs = refl
elem_cell-cells c b (c' ∷ cs) bs =
    elem_cell-append (c, b) (map (λ x. (c', x)) bs) (cells cs bs)
    ∙ ground (arith, elem_cell-map c' c b bs, elem_cell-cells c b cs bs)

elem-range_from : (b start n : ℕ) → elem b (range_from start n) ≡ (leb start b && ltb b (start + n))
elem-range_from b start zero = ground arith
elem-range_from b start (suc n) = ground (arith, elem-range_from b (start + 1) n)

module _ (settings : Settings) (store : Store) (simulation_id : ℕ) (gauges : Gauges)
    (start end : ℕ) where
  abbrev written : List (ℕ × ℕ)
  written = cells (consumer_ids store simulation_id) (range_from start (end + 1 - start))

  abbrev is_written : ℕ → ℕ → Bool
  is_written c b =
      elem c (consumer_ids store simulation_id)
      && (leb start b && ltb b (start + (end + 1 - start)))

  write_span-metrics :
      (cursors : Cursors)
      → (write_span settings simulation_id gauges start end cursors store).1.metrics
        ≡ upsert_all
            (map (metric_row settings store simulation_id gauges start end) written)
            store.metrics
  unfolding write_span upsert_all
  write_span-metrics cursors = ground arith

  -- After a pass writes a span, the cells of its consumers and buckets hold its rows, and every
  -- other cell of the simulation holds what it held.
  pub get_row-write_span :
      (cursors : Cursors) (c b : ℕ)
      → get_row simulation_id
          (c, b)
          (write_span settings simulation_id gauges start end cursors store).1.metrics
        ≡ (if elem c (consumer_ids store simulation_id)
              && (leb start b && ltb b (start + (end + 1 - start)))
            then some (metric_row settings store simulation_id gauges start end (c, b))
            else get_row simulation_id (c, b) store.metrics)
  get_row-write_span cursors c b =
      ap (get_row simulation_id (c, b)) (write_span-metrics cursors)
      ∙ get_row-upsert_all settings store simulation_id gauges start end c b written store.metrics
      ∙ ground (
        arith,
        elem_cell-cells c b (consumer_ids store simulation_id) (range_from start (end + 1 - start)),
        elem-range_from b start (end + 1 - start),
      )
