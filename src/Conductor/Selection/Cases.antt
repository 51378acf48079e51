-- ===== src/Conductor/Selection/Cases.antt =====
-- `select_candidates` selects nothing, or it selects with slots to give.
use webhook_recovery.Prelude.{ℕ, ◌<◌, inl, inr, Bool, not, arith, ltb, ◌==◌, any, Bool-cases}
use webhook_recovery.Core.Settings.{Settings}
use webhook_recovery.Core.Models.{Store}
use webhook_recovery.Conductor.Gauges.{Gauges}
use webhook_recovery.Conductor.Policy.{PolicyMap}
use webhook_recovery.Conductor.Admission.{Budget, slots, Selection, Slots, state_ids}
use webhook_recovery.Conductor.Selection.{
  read_consumer_states, headroom_of, allowances, select_among, nothing, select_candidates,
}

module _ (settings : Settings) (store : Store) (simulation_id now : ℕ) (budget : Budget)
    (gauges : Gauges) (policies : PolicyMap) (fair_drain : Bool) where
  abbrev pub allowed : Slots
  allowed =
      let states = read_consumer_states settings store simulation_id now gauges in
      allowances states (headroom_of settings.fairness_window_virtual_s (not fair_drain) states)
        (slots budget) fair_drain

  abbrev pub chosen : Selection
  chosen =
      select_among settings store simulation_id now (slots budget) policies fair_drain allowed
        (state_ids (read_consumer_states settings store simulation_id now gauges))

  pub select_candidates_cases {κ} :
      (P : Selection → Type κ)
      → P nothing
      → (0 < slots budget → P chosen)
      → P (select_candidates settings store simulation_id now budget gauges policies fair_drain)
  unfolding select_candidates
  select_candidates_cases P none some =
      let states = read_consumer_states settings store simulation_id now gauges in
      elim (Bool-cases (slots budget == 0)) [
        | inl e ↦ rw (e, select_candidates) none
        | inr e ↦ elim (Bool-cases (any (λ c. ltb 0 (allowed c)) (state_ids states))) [
          | inl f ↦ rw (e, f, select_candidates) (some (ground arith))
          | inr f ↦ rw (e, f, select_candidates) none
        ]
      ]
