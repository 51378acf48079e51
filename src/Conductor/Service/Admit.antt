-- ===== src/Conductor/Service/Admit.antt =====
-- What the admitting part of a pass does to the deliveries.
use mathlib.Core.List.{Memᴰ}
use webhook_recovery.Prelude.{
  ℕ, ◌≡◌, refl, ap, sym, ◌∙◌, subst, ◌⊎◌, inl, inr, false, List, [], ◌∷◌, map, arith, ◌==◌, ==_iff,
  elem, All, All-mono, Distinct, Bool-cases, id_unique,
}
use webhook_recovery.Core.Enums.{is_pending}
use webhook_recovery.Core.Settings.{Settings}
use webhook_recovery.Core.Models.{Simulation, Store, Delivery}
use webhook_recovery.Conductor.Gauges.{Gauges}
use webhook_recovery.Conductor.Policy.{apply_drops, load_policies}
use webhook_recovery.Conductor.Policy.Written.{apply_drops-ids, apply_drops-absent}
use webhook_recovery.Conductor.Admission.{slots, compute_budget}
use webhook_recovery.Conductor.Selection.{select_candidates}
use webhook_recovery.Conductor.Selection.Marked.{mark_ready-ids, mark_ready-absent}
use webhook_recovery.Conductor.Selection.Due.{DueId, select_candidates-Due}
use webhook_recovery.Conductor.Service.{admit, decide, retire}

abbrev pub ids_of : List Delivery → List ℕ
ids_of = map (λ d. d.id)

-- A row that is not pending is no row that is due.
pub other_id :
    (simulation_id now : ℕ) (ds : List Delivery) (d : Delivery) (id : ℕ)
    → Distinct (ids_of ds)
    → Memᴰ d ds
    → is_pending d.state ≡ false
    → DueId simulation_id now ds id
    → (d.id == id) ≡ false
other_id simulation_id now ds d id u m h (d', m', due, e) = elim (Bool-cases (d.id == id)) [
  | inr ne ↦ ne
  | inl eq ↦
      let same : d ≡ d' =
        id_unique (λ (x : Delivery). x.id) ds d d' u m m' ((==_iff d.id id).0 eq ∙ sym e) in
      let state : is_pending d'.state ≡ false =
        ap (λ (x : Delivery). is_pending x.state) (sym same) ∙ h in
      ground (arith, state, due)
]

not_elem : (id : ℕ) (ids : List ℕ) → All (λ i. (id == i) ≡ false) ids → elem id ids ≡ false
not_elem id [] h = refl
not_elem id (i ∷ ids) h = ground (arith, not_elem id ids h.1, h.0)

module _ (settings : Settings) (sim : Simulation) (now : ℕ) (gauges : Gauges) (store : Store) where
  pub admit-ids : ids_of (admit settings sim now gauges store).deliveries ≡ ids_of store.deliveries
  unfolding admit
  admit-ids =
      let budget = compute_budget settings store sim.id sim.global_attempts_per_s now in
      let selection =
        select_candidates settings store sim.id now budget gauges
          (load_policies store.policies sim.id) sim.fair_drain_enabled in
      elim (Bool-cases (slots budget == 0)) [
        | inl e ↦ rw (e, admit) refl
        | inr e ↦
            rw (e, admit)
              (mark_ready-ids selection.admit now (apply_drops selection.drops now store.deliveries)
                ∙ apply_drops-ids selection.drops now store.deliveries)
      ]

  pub admit_keeps :
      (d : Delivery)
      → Distinct (ids_of store.deliveries)
      → Memᴰ d store.deliveries
      → is_pending d.state ≡ false
      → Memᴰ d (admit settings sim now gauges store).deliveries
  unfolding admit
  admit_keeps d u m h =
      let budget = compute_budget settings store sim.id sim.global_attempts_per_s now in
      let policies = load_policies store.policies sim.id in
      let selection =
        select_candidates settings store sim.id now budget gauges policies sim.fair_drain_enabled in
      let (admitted, dropped) =
        select_candidates-Due settings store sim.id now policies budget gauges
          sim.fair_drain_enabled in
      let Of = DueId sim.id now store.deliveries in
      let other = other_id sim.id now store.deliveries d in
      elim (Bool-cases (slots budget == 0)) [
        | inl e ↦ rw (e, admit) m
        | inr e ↦
            rw (e, admit)
              (mark_ready-absent selection.admit now
                (apply_drops selection.drops now store.deliveries) d
                (apply_drops-absent selection.drops now store.deliveries d m (
                  All-mono (λ drop. Of drop.delivery_id)
                    (λ drop. (d.id == drop.delivery_id) ≡ false)
                    (λ drop. other drop.delivery_id u m h) selection.drops dropped))
                (not_elem d.id selection.admit (
                  All-mono Of (λ i. (d.id == i) ≡ false) (λ i. other i u m h) selection.admit
                    admitted)))
      ]

  -- `decide` retires, waits or admits.
  pub decide-cases :
      (elapsed : ℕ)
      → ((decide settings sim now elapsed gauges store).deliveries ≡ store.deliveries)
        ⊎ ((decide settings sim now elapsed gauges store).deliveries
            ≡ (admit settings sim now gauges store).deliveries)
  unfolding decide retire
  decide-cases elapsed = ground arith

  pub decide-events :
      (elapsed : ℕ) → (decide settings sim now elapsed gauges store).events ≡ store.events
  unfolding decide retire admit
  decide-events elapsed = ground arith

  pub decide-attempts :
      (elapsed : ℕ) → (decide settings sim now elapsed gauges store).attempts ≡ store.attempts
  unfolding decide retire admit
  decide-attempts elapsed = ground arith

  pub decide-ids :
      (elapsed : ℕ)
      → ids_of (decide settings sim now elapsed gauges store).deliveries ≡ ids_of store.deliveries
  decide-ids elapsed = elim (decide-cases elapsed) [
    | inl e ↦ ap ids_of e
    | inr e ↦ ap ids_of e ∙ admit-ids
  ]

  pub decide_keeps :
      (elapsed : ℕ) (d : Delivery)
      → Distinct (ids_of store.deliveries)
      → Memᴰ d store.deliveries
      → is_pending d.state ≡ false
      → Memᴰ d (decide settings sim now elapsed gauges store).deliveries
  decide_keeps elapsed d u m h = elim (decide-cases elapsed) [
    | inl e ↦ subst (Memᴰ d) (sym e) m
    | inr e ↦ subst (Memᴰ d) (sym e) (admit_keeps d u m h)
  ]
