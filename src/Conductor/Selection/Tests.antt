-- ===== src/Conductor/Selection/Tests.antt =====
-- The caps of one consumer in a pass over a small table.
use mathlib.Core.List.Memᴰ.{head}
use webhook_recovery.Prelude.{◌+◌, ◌≤◌, ◌<◌, ◌≡◌, refl, ◌⊎◌, true}
use webhook_recovery.Core.Settings.{default_settings}
use webhook_recovery.Conductor.Gauges.{Gauges, read_gauges}
use webhook_recovery.Conductor.Admission.{ConsumerState, compute_budget, per_window}
use webhook_recovery.Conductor.Selection.{consumer_state, read_consumer_states, select_candidates}
use webhook_recovery.Conductor.Selection.Caps.{admitted_of, select_candidates_caps}
use webhook_recovery.Tests.Samples.{sample_store, sample_distinct, latest_price, consumer_at}

abbrev gauges : Gauges
gauges = read_gauges 1 sample_store.deliveries

abbrev first_state : ConsumerState
first_state = consumer_state default_settings sample_store 1 1_000 gauges (consumer_at 1 3_000)

select_candidates_caps_example :
    let budget = compute_budget default_settings sample_store 1 40_000 1_000 in
    let sel =
      select_candidates default_settings sample_store 1 1_000 budget gauges latest_price true in
    let admitted = admitted_of first_state.id sel.admit sample_store.deliveries in
    (admitted ≡ 0)
    ⊎ ((admitted ≤ first_state.demand)
        × (first_state.attempts_in_window + first_state.ready + admitted
            ≤ per_window first_state.max_attempts_per_s default_settings.fairness_window_virtual_s)
        × (true ≡ true → first_state.in_flight < first_state.concurrency_cap))
unfolding read_consumer_states consumer_state
select_candidates_caps_example =
    select_candidates_caps default_settings sample_store 1 1_000 latest_price sample_distinct
      (compute_budget default_settings sample_store 1 40_000 1_000) gauges true first_state
      (refl, (refl, tt)) (head refl)
