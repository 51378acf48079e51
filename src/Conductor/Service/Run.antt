-- ===== src/Conductor/Service/Run.antt =====
-- What a whole run of passes keeps.
use mathlib.Core.List.{Memᴰ}
use webhook_recovery.Prelude.{
  ℕ, ◌-◌, ◌≡◌, refl, ap, sym, ◌∙◌, subst, Bool, true, List, [], ◌∷◌, map, arith, Distinct, filter,
}
use webhook_recovery.Core.Enums.{is_terminal, is_running}
use webhook_recovery.Core.Settings.{Settings}
use webhook_recovery.Core.Models.{Simulation, Store, Delivery, Attempt}
use webhook_recovery.Core.Clock.{from_row, now_at, virtual_epoch_zero}
use webhook_recovery.Conductor.Gauges.{Gauges, read_gauges}
use webhook_recovery.Conductor.Metrics.{Cursors, write}
use webhook_recovery.Conductor.Metrics.Keeps.{write-IsKept}
use webhook_recovery.Conductor.Reaper.{reclaim_expired_leases}
use webhook_recovery.Conductor.Reaper.Sweep.{
  reclaim_expired_leases-ids, reclaim_expired_leases_keeps, reclaim_expired_leases-events,
  reclaim_expired_leases-attempts,
}
use webhook_recovery.Conductor.Service.{Readings, pass, pass_all, run_once}
use webhook_recovery.Conductor.Service.Admit.{
  ids_of, decide-ids, decide_keeps, decide-events, decide-attempts,
}

abbrev pub attempt_ids : List Attempt → List ℕ
attempt_ids = map (λ a. a.id)

module _ (settings : Settings) (locked : ℕ → Bool) where
  module _ (sim : Simulation) (at : Readings) (cursors : Cursors) (store : Store)
      (distinct : Distinct (ids_of store.deliveries)) where
    abbrev now : ℕ
    now = now_at (from_row sim) at.0

    abbrev elapsed : ℕ
    elapsed = now_at (from_row sim) at.1 - virtual_epoch_zero

    abbrev reclaimed : Store
    reclaimed = (reclaim_expired_leases settings sim.id now locked store).0

    abbrev gauges : Gauges
    gauges = read_gauges sim.id reclaimed.deliveries

    abbrev measured : Store
    measured = (write settings sim.id now gauges cursors reclaimed).1

    measured-ids : ids_of measured.deliveries ≡ ids_of store.deliveries
    measured-ids =
        ap ids_of (write-IsKept settings sim.id now gauges cursors reclaimed).deliveries
        ∙ reclaim_expired_leases-ids settings sim.id now locked store distinct

    pub pass-ids :
        ids_of (pass settings locked sim at (cursors, store)).1.deliveries ≡ ids_of store.deliveries
    unfolding pass
    pass-ids = decide-ids settings sim now gauges measured elapsed ∙ measured-ids

    pass-attempts :
        attempt_ids (pass settings locked sim at (cursors, store)).1.attempts
        ≡ attempt_ids store.attempts
    unfolding pass
    pass-attempts =
        ap attempt_ids (
          decide-attempts settings sim now gauges measured elapsed
          ∙ (write-IsKept settings sim.id now gauges cursors reclaimed).attempts)
        ∙ reclaim_expired_leases-attempts settings sim.id now locked store

    pass-events : (pass settings locked sim at (cursors, store)).1.events ≡ store.events
    unfolding pass
    pass-events =
        decide-events settings sim now gauges measured elapsed
        ∙ (write-IsKept settings sim.id now gauges cursors reclaimed).events
        ∙ reclaim_expired_leases-events settings sim.id now locked store

    pass_keeps :
        (d : Delivery)
        → Memᴰ d store.deliveries
        → is_terminal d.state ≡ true
        → Memᴰ d (pass settings locked sim at (cursors, store)).1.deliveries
    unfolding pass
    pass_keeps d m h =
        decide_keeps settings sim now gauges measured elapsed d
          (subst Distinct (sym measured-ids) distinct)
          (subst (Memᴰ d)
            (sym (write-IsKept settings sim.id now gauges cursors reclaimed).deliveries)
            (reclaim_expired_leases_keeps settings sim.id now locked store distinct d m
              (ground arith)))
          (ground arith)

  module _ (readings : ℕ → Readings) where
    pass_all-ids :
        (sims : List Simulation) (state : Cursors × Store)
        → Distinct (ids_of state.1.deliveries)
        → ids_of (pass_all settings locked readings sims state).1.deliveries
          ≡ ids_of state.1.deliveries
    unfolding pass_all
    pass_all-ids [] state u = refl
    pass_all-ids (sim ∷ sims) (cursors, store) u =
        let e = pass-ids sim (readings sim.id) cursors store u in
        pass_all-ids sims (pass settings locked sim (readings sim.id) (cursors, store))
          (subst Distinct (sym e) u)
        ∙ e

    pass_all_keeps :
        (sims : List Simulation) (state : Cursors × Store) (d : Delivery)
        → Distinct (ids_of state.1.deliveries)
        → Memᴰ d state.1.deliveries
        → is_terminal d.state ≡ true
        → Memᴰ d (pass_all settings locked readings sims state).1.deliveries
    unfolding pass_all
    pass_all_keeps [] state d u m h = m
    pass_all_keeps (sim ∷ sims) (cursors, store) d u m h =
        let e = pass-ids sim (readings sim.id) cursors store u in
        pass_all_keeps sims (pass settings locked sim (readings sim.id) (cursors, store)) d
          (subst Distinct (sym e) u) (pass_keeps sim (readings sim.id) cursors store u d m h) h

    pass_all-rest :
        (sims : List Simulation) (state : Cursors × Store)
        → Distinct (ids_of state.1.deliveries)
        → let out = (pass_all settings locked readings sims state).1 in
          (attempt_ids out.attempts ≡ attempt_ids state.1.attempts) × (out.events ≡ state.1.events)
    unfolding pass_all
    pass_all-rest [] state u = (refl, refl)
    pass_all-rest (sim ∷ sims) (cursors, store) u =
        let e = pass-ids sim (readings sim.id) cursors store u in
        let (attempts, events) =
          pass_all-rest sims (pass settings locked sim (readings sim.id) (cursors, store))
            (subst Distinct (sym e) u) in
        (
          attempts ∙ pass-attempts sim (readings sim.id) cursors store u,
          events ∙ pass-events sim (readings sim.id) cursors store u,
        )

    -- The conductor never creates work: with distinct deliveries, whatever a run over all running
    -- simulations does, the same events are there after it, and the deliveries and the attempts
    -- have the ids that they had, in their order.
    pub run_once-ids :
        (cursors : Cursors) (store : Store)
        → Distinct (ids_of store.deliveries)
        → let out = (run_once settings locked readings (cursors, store)).1 in
          (ids_of out.deliveries ≡ ids_of store.deliveries)
          × (attempt_ids out.attempts ≡ attempt_ids store.attempts)
          × (out.events ≡ store.events)
    unfolding run_once
    run_once-ids cursors store u =
        let sims = filter (λ (sim : Simulation). is_running sim.status) store.simulations in
        let (attempts, events) = pass_all-rest sims (cursors, store) u in
        (pass_all-ids sims (cursors, store) u, attempts, events)

    -- Settled work stays settled: with distinct deliveries, a delivery in a terminal state has after
    -- a run over all running simulations the very row it had before.
    pub run_once_keeps :
        (cursors : Cursors) (store : Store) (d : Delivery)
        → Distinct (ids_of store.deliveries)
        → Memᴰ d store.deliveries
        → is_terminal d.state ≡ true
        → Memᴰ d (run_once settings locked readings (cursors, store)).1.deliveries
    unfolding run_once
    run_once_keeps cursors store d =
        pass_all_keeps (filter (λ (sim : Simulation). is_running sim.status) store.simulations)
          (cursors, store) d
