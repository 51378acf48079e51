-- ===== src/Conductor/Selection/Disjoint.antt =====
-- What a pass drops it does not admit.
use webhook_recovery.Prelude.{
  ℕ, ◌≡◌, refl, ap, sym, ◌∙◌, inl, inr, Bool, true, false, List, map, ◌==◌, ==_iff, elem, filter,
  All, All-mono, All-filter, All-Memᴰ, Distinct, Bool-cases, id_unique, row_of_elem,
}
use webhook_recovery.Core.Settings.{Settings}
use webhook_recovery.Core.Models.{Store, Delivery}
use webhook_recovery.Conductor.Gauges.{Gauges}
use webhook_recovery.Conductor.Policy.{Candidate, as_candidate, PolicyMap, evaluate}
use webhook_recovery.Conductor.Policy.Partition.{is_fresh, is_unbeaten, newest, evaluate-admit}
use webhook_recovery.Conductor.Policy.Dropped.{is_drop, IsDropOf, is_admissible, evaluate-IsDropOf}
use webhook_recovery.Conductor.Admission.{Budget, slots, Selection, Slots}
use webhook_recovery.Conductor.Selection.{candidates_for, ration, select_among, select_candidates}
use webhook_recovery.Conductor.Selection.Cases.{select_candidates_cases}
use webhook_recovery.Conductor.Selection.Due.{DueCandidate, candidates_for-Due, ration-All}

module _ (settings : Settings) (store : Store) (simulation_id now : ℕ) (policies : PolicyMap)
    (distinct : Distinct (map (λ d. d.id) store.deliveries)) where
  abbrev Due : Candidate → Type 0
  Due = DueCandidate simulation_id now store.deliveries

  same_candidate : (c c' : Candidate) → Due c → Due c' → c.id ≡ c'.id → c ≡ c'
  same_candidate c c' (d, m, _, e) (d', m', _, e') h =
      e
      ∙ ap as_candidate (
          id_unique (λ (x : Delivery). x.id) store.deliveries d d' distinct m m'
            (ap (λ (x : Candidate). x.id) (sym e) ∙ h ∙ ap (λ (x : Candidate). x.id) e'))
      ∙ sym e'

  -- The drops end deliveries, and none of them names a delivery that is admitted.
  pub record IsApart (sel : Selection) : Type 0 where
    pub ends : All (λ drop. is_drop drop.state ≡ true) sel.drops
    pub apart :
        (id : ℕ)
        → elem id sel.admit ≡ true
        → All (λ drop. (id == drop.delivery_id) ≡ false) sel.drops

  select_among-IsApart :
      (budget : ℕ) (fair_drain : Bool) (allowed : Slots) (consumers : List ℕ)
      → IsApart (
          select_among settings store simulation_id now budget policies fair_drain allowed
            consumers)
  unfolding select_among
  select_among-IsApart budget fair_drain allowed consumers =
      let cs =
        candidates_for settings simulation_id now budget allowed consumers fair_drain
          store.deliveries in
      let test = is_admissible simulation_id store.deliveries policies now cs in
      let fresh = is_fresh policies now in
      let unbeaten = is_unbeaten (newest simulation_id store.deliveries policies now cs) in
      let due : All Due cs =
        candidates_for-Due simulation_id now store.deliveries settings budget allowed consumers
          fair_drain in
      let dropped = evaluate-IsDropOf simulation_id store.deliveries policies now cs in
      let verdict = evaluate simulation_id store.deliveries cs policies now in
      let Good = λ (c : Candidate). Due c × (test c ≡ true) in
      let good : All Good verdict.admit =
        rw (evaluate-admit simulation_id store.deliveries policies now cs) (
          All-mono (λ c. (Due c × (fresh c ≡ true)) × (unbeaten c ≡ true)) Good
            (λ c ((a, b), e). (a, rw (b, e) refl)) _
            (All-filter (λ c. Due c × (fresh c ≡ true)) unbeaten (filter fresh cs)
              (All-filter Due fresh cs due))) in
      let rationed = ration-All Good budget allowed (λ c. 0) 0 verdict.admit good in
      record {
        ends =
            All-mono (IsDropOf test cs) (λ drop. is_drop drop.state ≡ true) (λ drop h. h.ends) _
              dropped;
        apart = λ id h.
            let (c, m, e) =
              row_of_elem (λ (x : Candidate). x.id) id
                (ration budget allowed (λ c. 0) 0 verdict.admit) h in
            let (c_due, passes) = All-Memᴰ Good _ c rationed m in
            All-mono (IsDropOf test cs) (λ drop. (id == drop.delivery_id) ≡ false)
              (λ drop k. elim (Bool-cases (id == drop.delivery_id)) [
                | inr ne ↦ ne
                | inl eq ↦
                    let same : c ≡ k.candidate =
                      same_candidate c k.candidate c_due (All-Memᴰ Due cs k.candidate due k.listed)
                        (e ∙ (==_iff id drop.delivery_id).0 eq ∙ k.named) in
                    let bad : true ≡ false = sym passes ∙ ap test same ∙ k.failed in cc
              ])
              _ dropped;
      }

  pub select_candidates-IsApart :
      (budget : Budget) (gauges : Gauges) (fair_drain : Bool)
      → IsApart
          (select_candidates settings store simulation_id now budget gauges policies fair_drain)
  select_candidates-IsApart budget gauges fair_drain =
      select_candidates_cases settings store simulation_id now budget gauges policies fair_drain
        IsApart (record { ends = tt; apart = λ id h. cc })
        (λ _. select_among-IsApart (slots budget) fair_drain _ _)
