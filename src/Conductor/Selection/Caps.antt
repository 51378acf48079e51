-- ===== src/Conductor/Selection/Caps.antt =====
-- What a pass admits keeps to the rate cap of each consumer, to the provider's and to the buffer.
use mathlib.Core.List.{Memᴰ}
use mathlib.Core.List.Memᴰ.{head, tail}
use webhook_recovery.Prelude.{
  ℕ, ◌+◌, ◌≤◌, ◌<◌, ◌≡◌, refl, ◌⊎◌, inl, inr, sym, subst, Bool, true, false, not, ◌&&◌, List, [],
  ◌∷◌, map, arith, ltb, ◌==◌, if◌then◌else◌, elem, count, count_or, count_id-le, count_never,
  elem_of_Memᴰ, count-elem-le_length, length, length-map, Distinct, All, Bool-cases,
}
use webhook_recovery.Core.Settings.{Settings}
use webhook_recovery.Core.Models.{Store, Delivery}
use webhook_recovery.Conductor.Gauges.{Gauges}
use webhook_recovery.Conductor.Policy.{Candidate, PolicyMap, evaluate}
use webhook_recovery.Conductor.Admission.{
  Budget, slots, Selection, ConsumerState, Slots, headroom, per_window, compute_budget,
  buffer_target, ready_in, in_window, state_ids, total_cap,
}
use webhook_recovery.Conductor.Admission.Headroom.{headroom_caps, compute_budget-slots}
use webhook_recovery.Conductor.Admission.Allocate.{allocate-le-headroom}
use webhook_recovery.Conductor.Selection.{
  read_consumer_states, headroom_of, allowances, candidates_for, ration, select_among,
  select_candidates, mark_ready,
}
use webhook_recovery.Conductor.Selection.Cases.{chosen, select_candidates_cases}
use webhook_recovery.Conductor.Selection.Rationing.{is_for, ration_lem}
use webhook_recovery.Conductor.Selection.Due.{
  DueCandidate, candidates_for-Due, evaluate_admit-Due, ration-All,
}

abbrev pub ids_of : List Delivery → List ℕ
ids_of = map (λ d. d.id)

-- The rows of one consumer among a list of ids.
abbrev pub admitted_of : ℕ → List ℕ → List Delivery → ℕ
admitted_of consumer_id ids = count (λ d. d.consumer_id == consumer_id && elem d.id ids)

abbrev candidate_ids : List Candidate → List ℕ
candidate_ids = map (λ c. c.id)

-- With distinct ids, a candidate accounts for at most its own row.
admitted_of-le :
    (simulation_id now k : ℕ) (ds : List Delivery) (cs : List Candidate)
    → Distinct (ids_of ds)
    → All (DueCandidate simulation_id now ds) cs
    → admitted_of k (candidate_ids cs) ds ≤ count (is_for k) cs
admitted_of-le simulation_id now k ds [] distinct h =
    omega
      (arith, count_never (λ (d : Delivery). d.consumer_id == k && false) (λ d. ground arith) ds)
admitted_of-le simulation_id now k ds (c ∷ cs) distinct ((d, m, _, e), h) =
    let own : count (λ (x : Delivery). x.consumer_id == k && x.id == c.id) ds
        ≤ (if c.consumer_id == k then 1 else 0) =
      subst
        (λ z.
          count (λ (x : Delivery). x.consumer_id == k && x.id == z.id) ds
          ≤ (if z.consumer_id == k then 1 else 0))
        (sym e) (count_id-le (λ x. x.id) (λ x. x.consumer_id == k) d ds distinct m) in
    omega (
      arith,
      own,
      count_or (λ (x : Delivery). x.consumer_id == k && elem x.id (candidate_ids (c ∷ cs)))
          (λ x. x.consumer_id == k && x.id == c.id)
          (λ x. x.consumer_id == k && elem x.id (candidate_ids cs)) (λ x e. ground arith) ds,
      admitted_of-le simulation_id now k ds cs distinct h,
    )

allowances-le :
    (states : List ConsumerState) (headrooms : Slots) (budget : ℕ) (fair : Bool) (c : ℕ)
    → allowances states headrooms budget fair c ≤ headrooms c
unfolding allowances
allowances-le states headrooms budget true c = allocate-le-headroom states headrooms budget c
allowances-le states headrooms budget false c = omega arith

headroom_of_lem :
    (window : ℕ) (pooled : Bool) (states : List ConsumerState) (s : ConsumerState)
    → Distinct (state_ids states)
    → Memᴰ s states
    → headroom_of window pooled states s.id ≡ headroom s window pooled
headroom_of_lem window pooled [] s distinct m = elim m [ ]
headroom_of_lem window pooled (x ∷ xs) s distinct (head e) = rw e (ground arith)
headroom_of_lem window pooled (x ∷ xs) s distinct (tail m) = ground (
  arith,
  elem_of_Memᴰ (λ (y : ConsumerState). y.id) s xs m,
  headroom_of_lem window pooled xs s distinct.1 m,
)

admitted_of-nil : (k : ℕ) (ds : List Delivery) → admitted_of k [] ds ≡ 0
admitted_of-nil k ds = count_never (λ d. d.consumer_id == k && false) (λ d. ground arith) ds

count-mark_ready :
    (ids : List ℕ) (now simulation_id : ℕ) (ds : List Delivery)
    → count (ready_in simulation_id) (mark_ready ids now ds)
      ≤ count (ready_in simulation_id) ds + count (λ d. elem d.id ids) ds
unfolding mark_ready
count-mark_ready ids now simulation_id [] = omega arith
count-mark_ready ids now simulation_id (d ∷ ds) =
    ground (arith, count-mark_ready ids now simulation_id ds)

module _ (settings : Settings) (store : Store) (simulation_id now : ℕ) (policies : PolicyMap)
    (distinct : Distinct (ids_of store.deliveries)) where
  select_among-le :
      (budget : ℕ) (fair : Bool) (allowed : Slots) (consumers : List ℕ) (k : ℕ)
      → let sel =
          select_among settings store simulation_id now budget policies fair allowed consumers in
        (admitted_of k sel.admit store.deliveries ≤ allowed k) × (length sel.admit ≤ budget)
  unfolding select_among
  select_among-le budget fair granted consumers k =
      let cs =
        candidates_for settings simulation_id now budget granted consumers fair store.deliveries in
      let kept = (evaluate simulation_id store.deliveries cs policies now).admit in
      let rationed = ration budget granted (λ c. 0) 0 kept in
      let due : All (DueCandidate simulation_id now store.deliveries) rationed =
        ration-All _ budget granted (λ c. 0) 0 kept
          (evaluate_admit-Due settings store simulation_id now policies cs (
            candidates_for-Due simulation_id now store.deliveries settings budget granted consumers
              fair)) in
      (
        omega (
          arith,
          admitted_of-le simulation_id now k store.deliveries rationed distinct due,
          ration_lem budget granted kept k,
        ),
        omega (
          arith,
          length-map (λ (c : Candidate). c.id) rationed,
          ration_lem budget granted kept k,
        ),
      )

  abbrev Capped : ConsumerState → Bool → Selection → Type 0
  Capped s fair_drain sel =
      (admitted_of s.id sel.admit store.deliveries ≡ 0)
      ⊎ ((admitted_of s.id sel.admit store.deliveries ≤ s.demand)
          × (s.attempts_in_window + s.ready + admitted_of s.id sel.admit store.deliveries
              ≤ per_window s.max_attempts_per_s settings.fairness_window_virtual_s)
          × (fair_drain ≡ true → s.in_flight < s.concurrency_cap))

  Capped-of_headroom :
      (s : ConsumerState) (fair_drain : Bool) (sel : Selection)
      → admitted_of s.id sel.admit store.deliveries
        ≤ headroom s settings.fairness_window_virtual_s (not fair_drain)
      → Capped s fair_drain sel
  Capped-of_headroom s fair_drain sel h =
      let window = settings.fairness_window_virtual_s in
      elim (Bool-cases (ltb 0 (headroom s window (not fair_drain)))) [
        | inl e ↦
            let (demand, rate, gate) = headroom_caps s window (not fair_drain) (ground arith) in
            inr (omega (arith, demand), omega (arith, rate), λ on. gate (rw on refl))
        | inr e ↦ inl (ground arith)
      ]

  -- Of any consumer that a pass reads, with distinct consumers and distinct deliveries, it admits
  -- nothing; or what it admits is within the consumer's demand, and keeps, with its attempts in the
  -- window and its ready deliveries, to its rate cap. With fair drain on the consumer is then also
  -- below its concurrency cap. This holds on both arms of the scheduler.
  pub select_candidates_caps :
      (budget : Budget) (gauges : Gauges) (fair_drain : Bool) (s : ConsumerState)
      → let states = read_consumer_states settings store simulation_id now gauges in
        let sel =
          select_candidates settings store simulation_id now budget gauges policies fair_drain in
        let admitted = admitted_of s.id sel.admit store.deliveries in
        Distinct (state_ids states)
        → Memᴰ s states
        → (admitted ≡ 0)
          ⊎ ((admitted ≤ s.demand)
              × (s.attempts_in_window + s.ready + admitted
                  ≤ per_window s.max_attempts_per_s settings.fairness_window_virtual_s)
              × (fair_drain ≡ true → s.in_flight < s.concurrency_cap))
  select_candidates_caps budget gauges fair_drain s known m =
      let window = settings.fairness_window_virtual_s in
      let states = read_consumer_states settings store simulation_id now gauges in
      let room = headroom s window (not fair_drain) in
      let headrooms = headroom_of window (not fair_drain) states in
      select_candidates_cases settings store simulation_id now budget gauges policies fair_drain
        (Capped s fair_drain) (inl (admitted_of-nil s.id store.deliveries))
        (λ _.
          Capped-of_headroom s fair_drain
            (chosen settings store simulation_id now budget gauges policies fair_drain)
            (omega (
              arith,
              select_among-le (slots budget) fair_drain
                  (allowances states headrooms (slots budget) fair_drain) (state_ids states) s.id,
              allowances-le states headrooms (slots budget) fair_drain s.id,
              headroom_of_lem window (not fair_drain) states s known m,
            )))

  mark_ready-count :
      (ids : List ℕ)
      → count (ready_in simulation_id) (mark_ready ids now store.deliveries)
        ≤ count (ready_in simulation_id) store.deliveries + length ids
  mark_ready-count ids = omega (
    arith,
    count-mark_ready ids now simulation_id store.deliveries,
    count-elem-le_length (λ (d : Delivery). d.id) ids store.deliveries distinct,
  )

  -- With distinct deliveries, a pass that takes its budget from the same tables admits nothing; or
  -- after it the ready buffer is within its target, and the attempts of the window and the ready
  -- deliveries together are within the provider's own rate.
  pub mark_ready_caps :
      (gauges : Gauges) (fair_drain : Bool) (global_attempts_per_s : ℕ)
      → let window = settings.fairness_window_virtual_s in
        let budget = compute_budget settings store simulation_id global_attempts_per_s now in
        let sel =
          select_candidates settings store simulation_id now budget gauges policies fair_drain in
        let ready' = count (ready_in simulation_id) (mark_ready sel.admit now store.deliveries) in
        (sel.admit ≡ [])
        ⊎ ((ready'
              ≤ buffer_target settings.ready_buffer_depth_multiplier
                  (total_cap simulation_id store.consumers))
            × (count (in_window simulation_id now window) store.attempts + ready'
                ≤ per_window global_attempts_per_s window))
  mark_ready_caps gauges fair_drain global_attempts_per_s =
      let budget = compute_budget settings store simulation_id global_attempts_per_s now in
      let states = read_consumer_states settings store simulation_id now gauges in
      let headrooms = headroom_of settings.fairness_window_virtual_s (not fair_drain) states in
      let given = allowances states headrooms (slots budget) fair_drain in
      select_candidates_cases settings store simulation_id now budget gauges policies fair_drain
        (λ sel.
          (sel.admit ≡ [])
          ⊎ ((count (ready_in simulation_id) (mark_ready sel.admit now store.deliveries)
                ≤ buffer_target settings.ready_buffer_depth_multiplier
                    (total_cap simulation_id store.consumers))
              × (count (in_window simulation_id now settings.fairness_window_virtual_s)
                      store.attempts
                    + count (ready_in simulation_id) (mark_ready sel.admit now store.deliveries)
                  ≤ per_window global_attempts_per_s settings.fairness_window_virtual_s)))
        (inl refl)
        (λ some_slots.
          let sel =
            select_among settings store simulation_id now (slots budget) policies fair_drain given
              (state_ids states) in
          let fits =
            compute_budget-slots settings store simulation_id global_attempts_per_s now
              some_slots in
          let few = (select_among-le (slots budget) fair_drain given (state_ids states) 0).1 in
          inr (
            omega (arith, mark_ready-count sel.admit, few, fits),
            omega (arith, mark_ready-count sel.admit, few, fits),
          ))
