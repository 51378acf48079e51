-- ===== src/System/Late.antt =====
-- A worker that is slow, not dead: app/worker/claim.py against app/conductor/reaper.py.
use mathlib.Core.List.{Memᴰ}
use webhook_recovery.Prelude.{
  ℕ, ◌≡◌, refl, subst, Bool, true, false, some, List, map, arith, Distinct, Memᴰ-map,
}
use webhook_recovery.Core.Enums.{lease_expired}
use webhook_recovery.Core.Settings.{Settings}
use webhook_recovery.Core.Models.{Store, Delivery, Attempt}
use webhook_recovery.Worker.Complete.{Completion, complete_batch, held, is_open}
use webhook_recovery.Worker.Complete.Fence.{
  settle_row, settle_row-unheld, complete_batch-deliveries, complete_batch_closed,
}
use webhook_recovery.Conductor.Reaper.{swept, reclaim_expired_leases}
use webhook_recovery.Conductor.Reaper.Sweep.{
  reclaimed_row, reclaim_expired_leases-map, reclaim_closes,
}

module _ (settings : Settings) (simulation_id now : ℕ) (locked : ℕ → Bool) (store : Store)
    (distinct : Distinct (map (λ d. d.id) store.deliveries)) (worker_id later : ℕ)
    (completions : List Completion) where
  abbrev after : Store
  after =
      complete_batch settings worker_id completions later
        (reclaim_expired_leases settings simulation_id now locked store).0

  reclaimed_unheld :
      (d : Delivery)
      → swept simulation_id now locked d ≡ true
      → held worker_id (reclaimed_row settings simulation_id now locked d) ≡ false
  reclaimed_unheld d s = ground arith

  -- With distinct deliveries, whatever batch any worker completes after a sweep, with whatever
  -- outcomes: a delivery that the sweep took is left exactly as the sweep wrote it, and its attempt,
  -- if it was open, stays closed as a lease that ran out.
  pub late_completion :
      (d : Delivery) (a : Attempt)
      → Memᴰ d store.deliveries
      → swept simulation_id now locked d ≡ true
      → Memᴰ a store.attempts
      → a.delivery_id ≡ d.id
      → is_open a ≡ true
      → Memᴰ (reclaimed_row settings simulation_id now locked d) after.deliveries
        × Memᴰ (record a { finished_at = some now; outcome = some lease_expired }) after.attempts
  late_completion d a m s am e o =
      let row = reclaimed_row settings simulation_id now locked in
      let kept = settle_row settings worker_id later completions in
      (
        rw
            (
              complete_batch-deliveries settings worker_id later completions
                  (reclaim_expired_leases settings simulation_id now locked store).0,
              reclaim_expired_leases-map settings simulation_id now locked store distinct,
            )
            (subst (λ x. Memᴰ x (map kept (map row store.deliveries)))
              (settle_row-unheld settings worker_id later completions (row d)
                (reclaimed_unheld d s))
              (Memᴰ-map kept (row d) (map row store.deliveries)
                (Memᴰ-map row d store.deliveries m))),
        complete_batch_closed settings worker_id later completions
            (reclaim_expired_leases settings simulation_id now locked store).0 _
            (reclaim_closes settings simulation_id now locked store distinct d a m s am e o) refl,
      )
