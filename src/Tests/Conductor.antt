-- ===== src/Tests/Conductor.antt =====
-- Policy, selection and gauges at the sample run.
use mathlib.Core.List.{Perm}
use webhook_recovery.Prelude.{
  ◌≡◌, refl, ◌+◌, ◌≤◌, ◌⊎◌, true, ◌&&◌, ◌==◌, List, [], ◌∷◌, ◌++◌, map, All, count, filter,
}
use webhook_recovery.Core.Enums.{in_flight, state_eq}
use webhook_recovery.Core.Settings.{default_settings}
use webhook_recovery.Core.Models.{Delivery}
use webhook_recovery.Conductor.Gauges.{read_gauges, get_gauge}
use webhook_recovery.Conductor.Gauges.Exact.{get_gauge-read_gauges}
use webhook_recovery.Conductor.Policy.{as_candidate, Candidate, policy_of, evaluate}
use webhook_recovery.Conductor.Policy.Survival.{IsJustified, evaluate-IsJustified}
use webhook_recovery.Conductor.Policy.Partition.{evaluate-perm}
use webhook_recovery.Conductor.Policy.Current.{is_current, evaluate-is_current}
use webhook_recovery.Conductor.Admission.{
  compute_budget, per_window, buffer_target, total_cap, in_window, ready_in,
}
use webhook_recovery.Conductor.Selection.{select_candidates, mark_ready}
use webhook_recovery.Conductor.Selection.Due.{SelectsDue, select_candidates-Due}
use webhook_recovery.Conductor.Selection.Caps.{mark_ready_caps}
use webhook_recovery.Tests.Samples.{sample_store, sample_distinct, latest_price, older, newer}

abbrev table : List Delivery
table = sample_store.deliveries

abbrev queued : List Candidate
queued = as_candidate older ∷ as_candidate newer ∷ []

evaluate-IsJustified_example :
    All
      (IsJustified 1 table latest_price 1_000 queued)
      (evaluate 1 table queued latest_price 1_000).drops
evaluate-IsJustified_example = evaluate-IsJustified 1 table latest_price 1_000 queued

evaluate-is_current_example :
    (evaluate 1 table queued latest_price 1_000).admit
    ≡ filter (λ c. is_current 1 table (policy_of latest_price c) 1_000 c) queued
evaluate-is_current_example = evaluate-is_current 1 table latest_price 1_000 queued

evaluate-perm_example :
    let v = evaluate 1 table queued latest_price 1_000 in
    Perm (map (λ c. c.id) v.admit ++ map (λ drop. drop.delivery_id) v.drops) (12 ∷ 13 ∷ [])
evaluate-perm_example = evaluate-perm 1 table latest_price 1_000 queued

select_candidates-Due_example : SelectsDue default_settings sample_store 1 1_000 latest_price (
    select_candidates default_settings sample_store 1 1_000
      (compute_budget default_settings sample_store 1 40_000 1_000)
      (read_gauges 1 table)
      latest_price
      true)
select_candidates-Due_example =
    select_candidates-Due default_settings sample_store 1 1_000 latest_price
      (compute_budget default_settings sample_store 1 40_000 1_000) (read_gauges 1 table) true

get_gauge-read_gauges_example :
    get_gauge (read_gauges 1 table) 1 in_flight
    ≡ count (λ d. d.simulation_id == 1 && (d.consumer_id == 1 && state_eq d.state in_flight)) table
get_gauge-read_gauges_example = get_gauge-read_gauges 1 1 in_flight table refl

mark_ready_caps_example :
    let window = default_settings.fairness_window_virtual_s in
    let budget = compute_budget default_settings sample_store 1 40_000 1_000 in
    let sel =
      select_candidates default_settings sample_store 1 1_000 budget
        (read_gauges 1 table)
        latest_price
        true in
    let ready' = count (ready_in 1) (mark_ready sel.admit 1_000 table) in
    (sel.admit ≡ [])
    ⊎ ((ready'
          ≤ buffer_target default_settings.ready_buffer_depth_multiplier
              (total_cap 1 sample_store.consumers))
        × (count (in_window 1 1_000 window) sample_store.attempts + ready'
            ≤ per_window 40_000 window))
mark_ready_caps_example =
    mark_ready_caps default_settings sample_store 1 1_000 latest_price sample_distinct
      (read_gauges 1 table) true 40_000
