-- ===== src/Conductor/Reaper/Sweep.antt =====
-- The sweep, seen from one row of the table.
use mathlib.Core.List.{Memᴰ}
use webhook_recovery.Prelude.{
  ap, map_key, ℕ, ◌+◌, ◌≡◌, refl, subst, ◌∙◌, Bool, true, false, not, ◌&&◌, some, List, [], ◌∷◌,
  map, arith, ◌==◌, if◌then◌else◌, filter, elem, count, length, update_row, Distinct, filter-filter,
  map_congr_mem, map-map, Memᴰ-map, update_row_own, elem-filter_own,
}
use webhook_recovery.Core.Enums.{is_in_flight, lease_expired}
use webhook_recovery.Core.Settings.{Settings}
use webhook_recovery.Core.Models.{Store, Delivery, Attempt}
use webhook_recovery.Worker.Complete.{is_open}
use webhook_recovery.Conductor.Reaper.{
  total, swept, is_exhausted, requeue_row, exhaust_row, close_attempts, reclaim_expired_leases,
}

-- What the sweep makes of one row.
abbrev pub reclaimed_row : Settings → ℕ → ℕ → (ℕ → Bool) → Delivery → Delivery
reclaimed_row settings simulation_id now locked d =
    if swept simulation_id now locked d
    then (if is_exhausted settings d
        then exhaust_row settings now d d
        else requeue_row settings now d d)
    else d

totals :
    (settings : Settings) (p : Delivery → Bool) (ds : List Delivery)
    → length (filter (λ row. not (is_exhausted settings row)) (filter p ds))
        + length (filter (is_exhausted settings) (filter p ds))
      ≡ count p ds
totals settings p [] = omega arith
totals settings p (d ∷ ds) = ground (arith, totals settings p ds)

module _ (settings : Settings) (simulation_id now : ℕ) (locked : ℕ → Bool) (store : Store)
    (distinct : Distinct (map (λ d. d.id) store.deliveries)) where
  abbrev rows : List Delivery
  rows = filter (swept simulation_id now locked) store.deliveries

  abbrev id_of : Delivery → ℕ
  id_of d = d.id

  requeued_once :
      (d : Delivery)
      → Memᴰ d store.deliveries
      → update_row
          (λ row d. d.id == row.id)
          (requeue_row settings now)
          (filter (λ row. not (is_exhausted settings row)) rows)
          d
        ≡ (if swept simulation_id now locked d && not (is_exhausted settings d)
            then requeue_row settings now d d
            else d)
  requeued_once d m =
      rw
        (filter-filter (swept simulation_id now locked) (λ row. not (is_exhausted settings row))
          store.deliveries)
        (update_row_own id_of (requeue_row settings now) (λ r x. refl) _ store.deliveries d d
          distinct m refl)

  exhausted_once :
      (d d' : Delivery)
      → Memᴰ d store.deliveries
      → d'.id ≡ d.id
      → update_row
          (λ row d. d.id == row.id)
          (exhaust_row settings now)
          (filter (is_exhausted settings) rows)
          d'
        ≡ (if swept simulation_id now locked d && is_exhausted settings d
            then exhaust_row settings now d d'
            else d')
  exhausted_once d d' m e =
      rw (filter-filter (swept simulation_id now locked) (is_exhausted settings) store.deliveries) (
        update_row_own id_of (exhaust_row settings now) (λ r x. refl) _ store.deliveries d d'
          distinct m e)

  abbrev once_requeued : Delivery → Delivery
  once_requeued d =
      if swept simulation_id now locked d && not (is_exhausted settings d)
      then requeue_row settings now d d
      else d

  once_requeued_id : (d : Delivery) → (once_requeued d).id ≡ d.id
  once_requeued_id d = ground arith

  both :
      (d : Delivery)
      → (if swept simulation_id now locked d && is_exhausted settings d
          then exhaust_row settings now d (once_requeued d)
          else once_requeued d)
        ≡ reclaimed_row settings simulation_id now locked d
  both d = ground arith

  -- With distinct ids, the two batches of statements do to each row, once, what the sweep means for
  -- it: a row of the simulation in flight with a lease that has run out, and that no other
  -- transaction holds, goes back to pending with the backoff of its attempts, or fails if its
  -- attempts are used up, and loses its lease; every other row stays as it was.
  pub reclaim_expired_leases-map :
      (reclaim_expired_leases settings simulation_id now locked store).0.deliveries
      ≡ map (reclaimed_row settings simulation_id now locked) store.deliveries
  unfolding reclaim_expired_leases
  reclaim_expired_leases-map =
      map-map _ _ store.deliveries
      ∙ map_congr_mem _ _ store.deliveries (λ d m.
        rw (requeued_once d m) (exhausted_once d (once_requeued d) m (once_requeued_id d) ∙ both d))

  unswept :
      (d : Delivery)
      → swept simulation_id now locked (reclaimed_row settings simulation_id now locked d) ≡ false
  unswept d = ground arith

  count-map_never :
      (p : Delivery → Bool) (f : Delivery → Delivery) (ds : List Delivery)
      → ((d : Delivery) → p (f d) ≡ false)
      → count p (map f ds) ≡ 0
  count-map_never p f [] h = refl
  count-map_never p f (d ∷ ds) h = ground (arith, h d, count-map_never p f ds h)

  -- After a sweep, with distinct ids, no lease of the simulation that has run out is left on a row
  -- in flight, but on rows that another transaction holds; and the sweep reports as many rows,
  -- requeued and exhausted together, as there were such leases before.
  pub reclaim_expired_leases_complete :
      let out = reclaim_expired_leases settings simulation_id now locked store in
      (count (swept simulation_id now locked) out.0.deliveries ≡ 0)
      × (total out.1 ≡ count (swept simulation_id now locked) store.deliveries)
  unfolding reclaim_expired_leases
  reclaim_expired_leases_complete = (
    rw reclaim_expired_leases-map (count-map_never _ _ store.deliveries unswept),
    totals settings (swept simulation_id now locked) store.deliveries,
  )

  -- The open attempt of a row that is swept is closed as a lease that ran out.
  pub reclaim_closes :
      (d : Delivery) (a : Attempt)
      → Memᴰ d store.deliveries
      → swept simulation_id now locked d ≡ true
      → Memᴰ a store.attempts
      → a.delivery_id ≡ d.id
      → is_open a ≡ true
      → Memᴰ
          (record a { finished_at = some now; outcome = some lease_expired })
          (reclaim_expired_leases settings simulation_id now locked store).0.attempts
  unfolding reclaim_expired_leases
  reclaim_closes d a m s am e o =
      let ids = map id_of rows in
      let own : elem a.delivery_id ids ≡ true = rw e (
        elem-filter_own id_of (swept simulation_id now locked) store.deliveries d distinct m ∙ s) in
      let close =
        λ (x : Attempt). record x { finished_at = some now; outcome = some lease_expired } in
      subst (λ x. Memᴰ x (close_attempts now ids store.attempts)) (rw (own, o))
        (Memᴰ-map (λ (x : Attempt). if elem x.delivery_id ids && is_open x then close x else x) a
          store.attempts am)

  pub reclaim_expired_leases-ids :
      map (λ d. d.id) (reclaim_expired_leases settings simulation_id now locked store).0.deliveries
      ≡ map (λ d. d.id) store.deliveries
  reclaim_expired_leases-ids =
      ap (map (λ (d : Delivery). d.id)) reclaim_expired_leases-map
      ∙ map_key (λ (d : Delivery). d.id) (reclaimed_row settings simulation_id now locked)
          (λ d. ground arith) store.deliveries

  -- A row that is not in flight is left as it was.
  pub reclaim_expired_leases_keeps :
      (d : Delivery)
      → Memᴰ d store.deliveries
      → is_in_flight d.state ≡ false
      → Memᴰ d (reclaim_expired_leases settings simulation_id now locked store).0.deliveries
  reclaim_expired_leases_keeps d m h =
      let row = reclaimed_row settings simulation_id now locked in
      let same : row d ≡ d = ground arith in
      rw reclaim_expired_leases-map
        (subst (λ x. Memᴰ x (map row store.deliveries)) same (Memᴰ-map row d store.deliveries m))

module _ (settings : Settings) (simulation_id now : ℕ) (locked : ℕ → Bool) (store : Store) where
  pub reclaim_expired_leases-events :
      (reclaim_expired_leases settings simulation_id now locked store).0.events ≡ store.events
  unfolding reclaim_expired_leases
  reclaim_expired_leases-events = refl

  pub reclaim_expired_leases-next :
      (reclaim_expired_leases settings simulation_id now locked store).0.next_delivery_id
      ≡ store.next_delivery_id
  unfolding reclaim_expired_leases
  reclaim_expired_leases-next = refl

  pub reclaim_expired_leases-attempted :
      map
        (λ a. a.delivery_id)
        (reclaim_expired_leases settings simulation_id now locked store).0.attempts
      ≡ map (λ a. a.delivery_id) store.attempts
  unfolding reclaim_expired_leases close_attempts
  reclaim_expired_leases-attempted =
      map_key (λ (a : Attempt). a.delivery_id) _ (λ a. ground arith) store.attempts

  pub reclaim_expired_leases-attempts :
      map (λ a. a.id) (reclaim_expired_leases settings simulation_id now locked store).0.attempts
      ≡ map (λ a. a.id) store.attempts
  unfolding reclaim_expired_leases close_attempts
  reclaim_expired_leases-attempts =
      map_key (λ (a : Attempt). a.id) _ (λ a. ground arith) store.attempts

  pub reclaim_expired_leases-simulations :
      (reclaim_expired_leases settings simulation_id now locked store).0.simulations
      ≡ store.simulations
  unfolding reclaim_expired_leases
  reclaim_expired_leases-simulations = refl
