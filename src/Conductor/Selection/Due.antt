-- ===== src/Conductor/Selection/Due.antt =====
-- Whatever a pass admits or drops is a delivery that is due.
use mathlib.Core.List.{Memᴰ}
use webhook_recovery.Prelude.{
  ℕ, ◌+◌, ◌*◌, ◌≡◌, refl, ap, inl, inr, sym, Bool, true, false, ◌&&◌, List, [], ◌∷◌, map, arith,
  leb, ◌==◌, filter, All, All-mono, All-append, All-Memᴰ, All-take, All-order_by, All-filter,
  All-filter_of, All-map, All-mem, Bool-cases,
}
use webhook_recovery.Core.Settings.{Settings}
use webhook_recovery.Core.Models.{Store, Delivery}
use webhook_recovery.Conductor.Gauges.{Gauges}
use webhook_recovery.Conductor.Policy.{Candidate, as_candidate, Drop, PolicyMap, evaluate}
use webhook_recovery.Conductor.Policy.Partition.{is_fresh, is_unbeaten, newest, evaluate-admit}
use webhook_recovery.Conductor.Policy.Survival.{IsJustified, evaluate-IsJustified}
use webhook_recovery.Conductor.Admission.{Budget, slots, Selection, Slots, increment}
use webhook_recovery.Conductor.Selection.{
  is_due, due_at, fifo_candidates, oldest_of_each, oldest_of, max_of, ration, candidates_for,
  select_among, select_candidates,
}
use webhook_recovery.Conductor.Selection.Cases.{select_candidates_cases}

module _ (simulation_id now : ℕ) (deliveries : List Delivery) where
  abbrev DueRow : Delivery → Type 0
  DueRow d = Memᴰ d deliveries × (is_due simulation_id now d ≡ true)

  -- The candidate is a row of the table that is pending and due.
  abbrev pub DueCandidate : Candidate → Type 0
  DueCandidate c =
      (d : Delivery) × Memᴰ d deliveries
      × (is_due simulation_id now d ≡ true)
      × (c ≡ as_candidate d)

  filter-DueRow : All DueRow (filter (is_due simulation_id now) deliveries)
  filter-DueRow =
      All-filter (λ d. Memᴰ d deliveries) (is_due simulation_id now) deliveries (All-mem deliveries)

  as_candidate-Due : (ds : List Delivery) → All DueRow ds → All DueCandidate (map as_candidate ds)
  as_candidate-Due ds h =
      All-map DueCandidate as_candidate ds
        (All-mono DueRow (λ d. DueCandidate (as_candidate d)) (λ d (m, e). (d, m, e, refl)) ds h)

  fifo_candidates-Due :
      (limit : ℕ) → All DueCandidate (fifo_candidates simulation_id now limit deliveries)
  unfolding fifo_candidates
  fifo_candidates-Due limit =
      as_candidate-Due _ (All-take DueRow limit _ (All-order_by DueRow due_at _ filter-DueRow))

  oldest_of-Due : (rank c : ℕ) → All DueRow (oldest_of simulation_id now rank deliveries c)
  oldest_of-Due rank c =
      let p = λ (d : Delivery). is_due simulation_id now d && d.consumer_id == c in
      All-take DueRow rank _ (
        All-order_by DueRow due_at _ (
          All-mono (λ d. Memᴰ d deliveries × (p d ≡ true)) DueRow (λ d (m, e). (m, ground arith)) _
            (All-filter (λ d. Memᴰ d deliveries) p deliveries (All-mem deliveries))))

  oldest_of_each-Due :
      (rank : ℕ) (cs : List ℕ) → All DueRow (oldest_of_each simulation_id now rank deliveries cs)
  oldest_of_each-Due rank [] = tt
  oldest_of_each-Due rank (c ∷ cs) =
      All-append DueRow (oldest_of simulation_id now rank deliveries c) _ (oldest_of-Due rank c)
        (oldest_of_each-Due rank cs)

  pub candidates_for-Due :
      (settings : Settings) (budget : ℕ) (allowed : Slots) (consumers : List ℕ) (fair : Bool)
      → All DueCandidate
          (candidates_for settings simulation_id now budget allowed consumers fair deliveries)
  unfolding candidates_for
  candidates_for-Due settings budget allowed consumers true =
      as_candidate-Due _
        (oldest_of_each-Due (max_of allowed consumers * settings.admission_overfetch) consumers)
  candidates_for-Due settings budget allowed consumers false =
      fifo_candidates-Due (budget * settings.admission_overfetch)

pub ration-All {κ} :
    (P : Candidate → Type κ) (budget : ℕ) (allowed taken : Slots) (n : ℕ) (cs : List Candidate)
    → All P cs
    → All P (ration budget allowed taken n cs)
unfolding ration
ration-All P budget allowed taken n [] h = tt
ration-All P budget allowed taken n (c ∷ cs) h =
    let skipped = ration-All P budget allowed taken n cs h.1 in
    let admitted = ration-All P budget allowed (increment taken c.consumer_id) (n + 1) cs h.1 in
    elim (Bool-cases (leb budget n)) [
      | inl e ↦ rw e tt
      | inr e ↦ elim (Bool-cases (leb (allowed c.consumer_id) (taken c.consumer_id))) [
        | inl f ↦ rw (e, f) skipped
        | inr f ↦ rw (e, f) (h.0, admitted)
      ]
    ]

-- The id of a pending and due row of the table.
abbrev pub DueId : ℕ → ℕ → List Delivery → ℕ → Type 0
DueId simulation_id now deliveries id =
    (d : Delivery) × Memᴰ d deliveries × (is_due simulation_id now d ≡ true) × (d.id ≡ id)

module _ (settings : Settings) (store : Store) (simulation_id now : ℕ) (policies : PolicyMap) where
  abbrev pub Due : Candidate → Type 0
  Due = DueCandidate simulation_id now store.deliveries

  abbrev pub OfDue : ℕ → Type 0
  OfDue = DueId simulation_id now store.deliveries

  Due-id : (c : Candidate) → Due c → OfDue c.id
  Due-id c (d, m, e, eq) = (d, m, e, ap (λ (x : Candidate). x.id) (sym eq))

  pub evaluate_admit-Due :
      (cs : List Candidate)
      → All Due cs
      → All Due (evaluate simulation_id store.deliveries cs policies now).admit
  evaluate_admit-Due cs h = rw (evaluate-admit simulation_id store.deliveries policies now cs) (
      All-filter_of Due (is_unbeaten (newest simulation_id store.deliveries policies now cs)) _
        (All-filter_of Due (is_fresh policies now) cs h))

  justified-Due :
      (cs : List Candidate) (drop : Drop)
      → All Due cs
      → IsJustified simulation_id store.deliveries policies now cs drop
      → OfDue drop.delivery_id
  justified-Due cs drop h (c, m, inl why) =
      rw (ap (λ (x : Drop). x.delivery_id) why.recorded) (Due-id c (All-Memᴰ Due cs c h m))
  justified-Due cs drop h (c, m, inr why) =
      rw (ap (λ (x : Drop). x.delivery_id) why.recorded) (Due-id c (All-Memᴰ Due cs c h m))

  abbrev pub SelectsDue : Selection → Type 0
  SelectsDue selection =
      All OfDue selection.admit × All (λ drop. OfDue drop.delivery_id) selection.drops

  select_among-Due :
      (budget : ℕ) (fair_drain : Bool) (allowed : Slots) (consumers : List ℕ)
      → SelectsDue (
          select_among settings store simulation_id now budget policies fair_drain allowed
            consumers)
  unfolding select_among
  select_among-Due budget fair_drain allowed consumers =
      let cs =
        candidates_for settings simulation_id now budget allowed consumers fair_drain
          store.deliveries in
      let due =
        candidates_for-Due simulation_id now store.deliveries settings budget allowed consumers
          fair_drain in
      (
        All-map OfDue (λ c. c.id) _
            (All-mono Due (λ c. OfDue c.id) Due-id _
              (ration-All Due budget allowed (λ c. 0) 0 _ (evaluate_admit-Due cs due))),
        All-mono (IsJustified simulation_id store.deliveries policies now cs)
            (λ drop. OfDue drop.delivery_id) (λ drop. justified-Due cs drop due) _
            (evaluate-IsJustified simulation_id store.deliveries policies now cs),
      )

  -- On either arm of the scheduler, every delivery that a pass admits or drops is one of the
  -- simulation's that is pending and due: one in flight, ready or settled is never touched.
  pub select_candidates-Due :
      (budget : Budget) (gauges : Gauges) (fair_drain : Bool)
      → SelectsDue
          (select_candidates settings store simulation_id now budget gauges policies fair_drain)
  select_candidates-Due budget gauges fair_drain =
      select_candidates_cases settings store simulation_id now budget gauges policies fair_drain
        SelectsDue (tt, tt) (λ _. select_among-Due (slots budget) fair_drain _ _)
