-- ===== src/Conductor/Service/Rows.antt =====
-- The deliveries after a pass, and after a run of passes, in terms of its sweeps and admissions.
use webhook_recovery.Prelude.{
  ℕ, ◌-◌, ◌≡◌, refl, ap, sym, ◌∙◌, subst, ◌⊎◌, inl, inr, Bool, true, false, List, [], ◌∷◌, map,
  ◌==◌, if◌then◌else◌, elem, filter, All, Distinct, Bool-cases, map-map,
}
use webhook_recovery.Core.Enums.{is_running}
use webhook_recovery.Core.Settings.{Settings}
use webhook_recovery.Core.Models.{Simulation, Store, Delivery}
use webhook_recovery.Core.Clock.{from_row, now_at, virtual_epoch_zero}
use webhook_recovery.Conductor.Gauges.{Gauges, read_gauges}
use webhook_recovery.Conductor.Metrics.{Cursors, write}
use webhook_recovery.Conductor.Metrics.Keeps.{write-IsKept}
use webhook_recovery.Conductor.Policy.{Drop, load_policies, apply_drops}
use webhook_recovery.Conductor.Policy.Dropped.{is_drop}
use webhook_recovery.Conductor.Policy.Written.{dropped_row, apply_drops-map}
use webhook_recovery.Conductor.Admission.{slots, compute_budget}
use webhook_recovery.Conductor.Selection.{select_candidates}
use webhook_recovery.Conductor.Selection.Due.{DueId, select_candidates-Due}
use webhook_recovery.Conductor.Selection.Disjoint.{select_candidates-IsApart}
use webhook_recovery.Conductor.Selection.Marked.{ready_row, mark_ready-map}
use webhook_recovery.Conductor.Reaper.{reclaim_expired_leases}
use webhook_recovery.Conductor.Reaper.Sweep.{reclaim_expired_leases-ids}
use webhook_recovery.Conductor.Service.{Readings, admit, decide, pass, pass_all, run_once}
use webhook_recovery.Conductor.Service.Admit.{ids_of, decide-cases}
use webhook_recovery.Conductor.Service.Run.{pass-ids}

-- What an admission does to one row: first the drops, then the mark.
abbrev pub admitted_row : List Drop → List ℕ → ℕ → Delivery → Delivery
admitted_row drops ids now d =
    let d' = dropped_row drops now d in if elem d'.id ids then ready_row now d' else d'

-- What a pass decides on: due deliveries of the table, each to admit or to end, and none to both.
pub record Decision (simulation_id now : ℕ) (ds ds' : List Delivery) : Type 0 where
  pub admit : List ℕ
  pub drops : List Drop
  pub admitted : All (DueId simulation_id now ds) admit
  pub dropped : All (λ drop. DueId simulation_id now ds drop.delivery_id) drops
  pub ends : All (λ drop. is_drop drop.state ≡ true) drops
  pub apart : (id : ℕ) → elem id admit ≡ true → All (λ drop. (id == drop.delivery_id) ≡ false) drops
  pub written : ds' ≡ map (admitted_row drops admit now) ds

pub admit-cases :
    (settings : Settings) (sim : Simulation) (now : ℕ) (gauges : Gauges) (store : Store)
    → Distinct (ids_of store.deliveries)
    → let after = (admit settings sim now gauges store).deliveries in
      (after ≡ store.deliveries) ⊎ Decision sim.id now store.deliveries after
unfolding admit
admit-cases settings sim now gauges store u =
    let budget = compute_budget settings store sim.id sim.global_attempts_per_s now in
    let policies = load_policies store.policies sim.id in
    let sel =
      select_candidates settings store sim.id now budget gauges policies sim.fair_drain_enabled in
    let (admitted, dropped) =
      select_candidates-Due settings store sim.id now policies budget gauges
        sim.fair_drain_enabled in
    let apart =
      select_candidates-IsApart settings store sim.id now policies u budget gauges
        sim.fair_drain_enabled in
    elim (Bool-cases (slots budget == 0)) [
      | inl e ↦ inl (rw (e, admit) refl)
      | inr e ↦ inr (record {
        admit = sel.admit;
        drops = sel.drops;
        admitted = admitted;
        dropped = dropped;
        ends = apart.ends;
        apart = apart.apart;
        written =
            rw (e, admit)
              (mark_ready-map sel.admit now (apply_drops sel.drops now store.deliveries)
                ∙ ap (map (λ d. if elem d.id sel.admit then ready_row now d else d))
                    (apply_drops-map sel.drops now store.deliveries)
                ∙ map-map (λ d. if elem d.id sel.admit then ready_row now d else d)
                    (dropped_row sel.drops now) store.deliveries);
      })
    ]

-- What every sweep and every admission does to the deliveries, a run of passes does.
module _ (settings : Settings) (locked : ℕ → Bool) (R : List Delivery → List Delivery → Type 0)
    (start : (ds : List Delivery) → R ds ds)
    (then_ : (ds ds' ds'' : List Delivery) → R ds ds' → R ds' ds'' → R ds ds'')
    (sweeps : (simulation_id now : ℕ) (store : Store)
      → Distinct (ids_of store.deliveries)
      → R store.deliveries
          (reclaim_expired_leases settings simulation_id now locked store).0.deliveries)
    (admits : (sim : Simulation) (now : ℕ) (gauges : Gauges) (store : Store)
      → Distinct (ids_of store.deliveries)
      → R store.deliveries (admit settings sim now gauges store).deliveries) where
  decide-R :
      (sim : Simulation) (now elapsed : ℕ) (gauges : Gauges) (store : Store)
      → Distinct (ids_of store.deliveries)
      → R store.deliveries (decide settings sim now elapsed gauges store).deliveries
  decide-R sim now elapsed gauges store u =
      elim (decide-cases settings sim now gauges store elapsed) [
        | inl e ↦ subst (R store.deliveries) (sym e) (start store.deliveries)
        | inr e ↦ subst (R store.deliveries) (sym e) (admits sim now gauges store u)
      ]

  pass-R :
      (sim : Simulation) (at : Readings) (cursors : Cursors) (store : Store)
      → Distinct (ids_of store.deliveries)
      → R store.deliveries (pass settings locked sim at (cursors, store)).1.deliveries
  unfolding pass
  pass-R sim at cursors store u =
      let now = now_at (from_row sim) at.0 in
      let elapsed = now_at (from_row sim) at.1 - virtual_epoch_zero in
      let reclaimed = (reclaim_expired_leases settings sim.id now locked store).0 in
      let gauges = read_gauges sim.id reclaimed.deliveries in
      let measured = (write settings sim.id now gauges cursors reclaimed).1 in
      let kept = (write-IsKept settings sim.id now gauges cursors reclaimed).deliveries in
      let u' : Distinct (ids_of measured.deliveries) =
        subst Distinct
          (sym (ap ids_of kept ∙ reclaim_expired_leases-ids settings sim.id now locked store u))
          u in
      then_ store.deliveries reclaimed.deliveries _ (sweeps sim.id now store u) (
        subst (λ ds. R ds (decide settings sim now elapsed gauges measured).deliveries) kept
          (decide-R sim now elapsed gauges measured u'))

  pass_all-R :
      (readings : ℕ → Readings) (sims : List Simulation) (state : Cursors × Store)
      → Distinct (ids_of state.1.deliveries)
      → R state.1.deliveries (pass_all settings locked readings sims state).1.deliveries
  unfolding pass_all
  pass_all-R readings [] state u = start state.1.deliveries
  pass_all-R readings (sim ∷ sims) (cursors, store) u =
      let e = pass-ids settings locked sim (readings sim.id) cursors store u in
      let next = pass settings locked sim (readings sim.id) (cursors, store) in
      then_ store.deliveries next.1.deliveries _ (pass-R sim (readings sim.id) cursors store u)
        (pass_all-R readings sims next (subst Distinct (sym e) u))

  pub run_once-R :
      (readings : ℕ → Readings) (cursors : Cursors) (store : Store)
      → Distinct (ids_of store.deliveries)
      → R store.deliveries (run_once settings locked readings (cursors, store)).1.deliveries
  unfolding run_once
  run_once-R readings cursors store u =
      pass_all-R readings (filter (λ (sim : Simulation). is_running sim.status) store.simulations)
        (cursors, store) u
