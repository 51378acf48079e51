-- ===== src/Conductor/Service/Serials.antt =====
-- The conductor inserts no delivery: the next serial number stays.
use webhook_recovery.Prelude.{
  ℕ, ◌-◌, ◌≡◌, refl, ap, map, ◌∙◌, List, [], ◌∷◌, arith, filter, Bool, inl, inr, ◌==◌, Bool-cases,
}
use webhook_recovery.Core.Enums.{is_running}
use webhook_recovery.Core.Settings.{Settings}
use webhook_recovery.Core.Models.{Simulation, Store, Attempt}
use webhook_recovery.Core.Clock.{from_row, now_at, virtual_epoch_zero}
use webhook_recovery.Conductor.Gauges.{Gauges, read_gauges}
use webhook_recovery.Conductor.Metrics.{Cursors, write}
use webhook_recovery.Conductor.Metrics.Keeps.{write-IsKept}
use webhook_recovery.Conductor.Reaper.Sweep.{
  reclaim_expired_leases-next, reclaim_expired_leases-attempted,
}
use webhook_recovery.Conductor.Admission.{slots, compute_budget}
use webhook_recovery.Conductor.Reaper.{reclaim_expired_leases}
use webhook_recovery.Conductor.Service.Admit.{decide-attempts}
use webhook_recovery.Conductor.Service.{Readings, retire, admit, decide, pass, pass_all, run_once}

-- Of which deliveries there are attempts.
abbrev pub attempted : Store → List ℕ
attempted store = map (λ a. a.delivery_id) store.attempts

module _ (settings : Settings) where
  admit-next :
      (sim : Simulation) (now : ℕ) (gauges : Gauges) (store : Store)
      → (admit settings sim now gauges store).next_delivery_id ≡ store.next_delivery_id
  unfolding admit
  admit-next sim now gauges store =
      let budget = compute_budget settings store sim.id sim.global_attempts_per_s now in
      elim (Bool-cases (slots budget == 0)) [
        | inl e ↦ rw (e, admit) refl
        | inr e ↦ rw (e, admit) refl
      ]

  decide-next :
      (sim : Simulation) (now elapsed : ℕ) (gauges : Gauges) (store : Store)
      → (decide settings sim now elapsed gauges store).next_delivery_id ≡ store.next_delivery_id
  unfolding decide retire
  decide-next sim now elapsed gauges store = ground (arith, admit-next sim now gauges store)

  module _ (locked : ℕ → Bool) where
    pass-next :
        (sim : Simulation) (at : Readings) (cursors : Cursors) (store : Store)
        → (pass settings locked sim at (cursors, store)).1.next_delivery_id ≡ store.next_delivery_id
    unfolding pass
    pass-next sim at cursors store =
        let now = now_at (from_row sim) at.0 in
        let reclaimed = (reclaim_expired_leases settings sim.id now locked store).0 in
        let gauges = read_gauges sim.id reclaimed.deliveries in
        decide-next sim now (now_at (from_row sim) at.1 - virtual_epoch_zero) gauges _
        ∙ (write-IsKept settings sim.id now gauges cursors reclaimed).next_delivery_id
        ∙ reclaim_expired_leases-next settings sim.id now locked store

    pass_all-next :
        (readings : ℕ → Readings) (sims : List Simulation) (state : Cursors × Store)
        → (pass_all settings locked readings sims state).1.next_delivery_id
          ≡ state.1.next_delivery_id
    unfolding pass_all
    pass_all-next readings [] state = refl
    pass_all-next readings (sim ∷ sims) (cursors, store) =
        pass_all-next readings sims (pass settings locked sim (readings sim.id) (cursors, store))
        ∙ pass-next sim (readings sim.id) cursors store

    pub run_once-next :
        (readings : ℕ → Readings) (cursors : Cursors) (store : Store)
        → (run_once settings locked readings (cursors, store)).1.next_delivery_id
          ≡ store.next_delivery_id
    unfolding run_once
    run_once-next readings cursors store =
        pass_all-next readings
          (filter (λ (sim : Simulation). is_running sim.status) store.simulations) (cursors, store)

    pass-attempted :
        (sim : Simulation) (at : Readings) (cursors : Cursors) (store : Store)
        → attempted (pass settings locked sim at (cursors, store)).1 ≡ attempted store
    unfolding pass
    pass-attempted sim at cursors store =
        let now = now_at (from_row sim) at.0 in
        let reclaimed = (reclaim_expired_leases settings sim.id now locked store).0 in
        let gauges = read_gauges sim.id reclaimed.deliveries in
        ap (map (λ (a : Attempt). a.delivery_id)) (
          decide-attempts settings sim now gauges
            (write settings sim.id now gauges cursors reclaimed).1
            (now_at (from_row sim) at.1 - virtual_epoch_zero)
          ∙ (write-IsKept settings sim.id now gauges cursors reclaimed).attempts)
        ∙ reclaim_expired_leases-attempted settings sim.id now locked store

    pass_all-attempted :
        (readings : ℕ → Readings) (sims : List Simulation) (state : Cursors × Store)
        → attempted (pass_all settings locked readings sims state).1 ≡ attempted state.1
    unfolding pass_all
    pass_all-attempted readings [] state = refl
    pass_all-attempted readings (sim ∷ sims) (cursors, store) =
        pass_all-attempted readings sims
          (pass settings locked sim (readings sim.id) (cursors, store))
        ∙ pass-attempted sim (readings sim.id) cursors store

    pub run_once-attempted :
        (readings : ℕ → Readings) (cursors : Cursors) (store : Store)
        → attempted (run_once settings locked readings (cursors, store)).1 ≡ attempted store
    unfolding run_once
    run_once-attempted readings cursors store =
        pass_all-attempted readings
          (filter (λ (sim : Simulation). is_running sim.status) store.simulations) (cursors, store)
