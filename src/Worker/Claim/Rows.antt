-- ===== src/Worker/Claim/Rows.antt =====
-- The rows that `claim_batch` writes.
use mathlib.Core.List.{Memᴰ}
use mathlib.Core.List.{map-append}
use webhook_recovery.Prelude.{
  filter, All, ap, All-filter, Memᴰ-map, ◌<◌, [], ◌∷◌, ◌∙◌, ◌++◌, update_row_key, filter-Distinct,
  ℕ, ◌+◌, ◌≡◌, refl, ◌⊎◌, inl, inr, Bool, true, not, List, map, arith, ◌==◌, if◌then◌else◌, elem,
  update_row, update_row_last, All-mono, All-Memᴰ, Distinct, Bool-cases, map-map, elem-filter_own,
  elem-filter_absent, ◌&&◌, row_of_query,
}
use webhook_recovery.Core.Enums.{is_ready}
use webhook_recovery.Core.Settings.{Settings}
use webhook_recovery.Core.Models.{Store, Delivery, Attempt, Reason}
use webhook_recovery.Worker.Claim.{
  claimable, split_stale, expire_row, expire, lease_row, lease, insert_attempts, claim_batch,
}
use webhook_recovery.Worker.Claim.Exclusive.{
  expire_absent, gone_ids, is_live, split_stale-live, split_stale-gone, IsFree, found-IsFree,
  found-Distinct,
}

abbrev names : ℕ × Reason → Delivery → Bool
names (id, reason) d = d.id == id

inserted_ids :
    (simulation_id worker_id now next : ℕ) (ds : List Delivery)
    → map (λ a. a.delivery_id) (insert_attempts simulation_id worker_id now next ds)
      ≡ map (λ d. d.id) ds
unfolding insert_attempts
inserted_ids simulation_id worker_id now next [] = refl
inserted_ids simulation_id worker_id now next (d ∷ ds) =
    ap (◌∷◌ d.id) (inserted_ids simulation_id worker_id now (next + 1) ds)

ids_below :
    (next : ℕ) (ds : List Delivery)
    → All (λ (d : Delivery). d.id < next) ds
    → All (λ i. i < next) (map (λ (d : Delivery). d.id) ds)
ids_below next [] h = tt
ids_below next (d ∷ ds) h = (h.0, ids_below next ds h.1)

module _ (settings : Settings) (simulation_id worker_id now limit : ℕ) (locked : ℕ → Bool)
    (store : Store) where
  abbrev rows : List Delivery
  rows = claimable simulation_id locked limit store.deliveries

  abbrev pub live_ids : List ℕ
  live_ids = map (λ (d : Delivery). d.id) (split_stale store.policies now rows).0

  abbrev gone : List (ℕ × Reason)
  gone = (split_stale store.policies now rows).1

  abbrev expired_row : Delivery → Delivery
  expired_row = update_row names (expire_row now) gone

  pub claimed_row : Delivery → Delivery
  claimed_row d =
      let d' = expired_row d in
      if elem d'.id live_ids
      then lease_row worker_id (now + settings.lease_duration_virtual_s) d'
      else d'

  pub claim_batch-map :
      (claim_batch settings simulation_id worker_id now limit locked store).0.deliveries
      ≡ map claimed_row store.deliveries
  unfolding claim_batch lease expire claimed_row
  claim_batch-map = map-map _ _ store.deliveries

  -- A claim counts an attempt of each row that it leases, and of no other.
  pub claimed_row-tries :
      (d : Delivery)
      → (claimed_row d).attempt_count ≡ d.attempt_count + (if elem d.id live_ids then 1 else 0)
  unfolding claimed_row
  claimed_row-tries d =
      let same : (expired_row d).id ≡ d.id =
        update_row_key (λ (x : Delivery). x.id) names (expire_row now) (λ p x. refl) gone d in
      let tries : (expired_row d).attempt_count ≡ d.attempt_count =
        update_row_key (λ (x : Delivery). x.attempt_count) names (expire_row now) (λ p x. refl) gone
          d in
      rw same (elim (Bool-cases (elem d.id live_ids)) [
        | inl e ↦ rw (e, tries) refl
        | inr e ↦ rw (e, tries) (omega arith)
      ])

  pub claimed_row-id : (d : Delivery) → (claimed_row d).id ≡ d.id
  unfolding claimed_row
  claimed_row-id d =
      let same : (expired_row d).id ≡ d.id =
        update_row_key (λ (x : Delivery). x.id) names (expire_row now) (λ p x. refl) gone d in
      elim (Bool-cases (elem (expired_row d).id live_ids)) [ inl e ↦ rw e same | inr e ↦ rw e same ]

  pub claim_batch-attempted :
      map
        (λ a. a.delivery_id)
        (claim_batch settings simulation_id worker_id now limit locked store).0.attempts
      ≡ map (λ a. a.delivery_id) store.attempts ++ live_ids
  unfolding claim_batch
  claim_batch-attempted =
      map-append (λ (a : Attempt). a.delivery_id) store.attempts _
      ∙ ap (λ xs. map (λ (a : Attempt). a.delivery_id) store.attempts ++ xs)
          (inserted_ids simulation_id worker_id now store.next_attempt_id
            (split_stale store.policies now rows).0)

  pub claim_batch-next :
      (claim_batch settings simulation_id worker_id now limit locked store).0.next_delivery_id
      ≡ store.next_delivery_id
  unfolding claim_batch
  claim_batch-next = refl

  module _ (distinct : Distinct (map (λ d. d.id) store.deliveries)) where
    abbrev IsFreeRow : Delivery → Type 0
    IsFreeRow = IsFree settings simulation_id worker_id now limit locked store distinct

    -- No row is leased twice.
    pub live_ids-Distinct : Distinct live_ids
    live_ids-Distinct = rw (split_stale-live store.policies now rows) (
        filter-Distinct (λ (x : Delivery). x.id) (is_live store.policies now) rows
          (found-Distinct settings simulation_id worker_id now limit locked store distinct))

    pub live_ids-below :
        (next : ℕ)
        → All (λ i. i < next) (map (λ d. d.id) store.deliveries)
        → All (λ i. i < next) live_ids
    live_ids-below next h = rw (split_stale-live store.policies now rows) (
        ids_below next (filter (is_live store.policies now) rows) (
          All-mono (λ x. IsFreeRow x × (is_live store.policies now x ≡ true))
            (λ (x : Delivery). x.id < next)
            (λ x (f, e).
              All-Memᴰ (λ i. i < next) _ x.id h
                (Memᴰ-map (λ (y : Delivery). y.id) x store.deliveries f.listed))
            _
            (All-filter IsFreeRow (is_live store.policies now) rows
              (found-IsFree settings simulation_id worker_id now limit locked store distinct))))

  module _ (distinct : Distinct (map (λ d. d.id) store.deliveries)) (d : Delivery)
      (m : Memᴰ d store.deliveries) where
    found_row :
        elem d.id (map (λ (x : Delivery). x.id) rows) ≡ true
        → Memᴰ d rows × (is_ready d.state ≡ true)
    found_row e =
        let free = found-IsFree settings simulation_id worker_id now limit locked store distinct in
        let n =
          row_of_query (λ (x : Delivery). x.id) store.deliveries rows d distinct
            (All-mono (IsFreeRow distinct) (λ x. Memᴰ x store.deliveries) (λ x f. f.listed) rows
              free)
            m e in
        (n, (All-Memᴰ (IsFreeRow distinct) rows d free n).ready)

    live_lem :
        elem d.id live_ids
        ≡ (elem d.id (map (λ (x : Delivery). x.id) rows) && is_live store.policies now d)
    live_lem =
        rw (split_stale-live store.policies now rows)
          (elim (Bool-cases (elem d.id (map (λ (x : Delivery). x.id) rows))) [
            | inr e ↦ rw e (
                elem-filter_absent (λ (x : Delivery). x.id) (is_live store.policies now) d.id rows
                  e)
            | inl e ↦ rw e (
                elem-filter_own (λ (x : Delivery). x.id) (is_live store.policies now) rows d
                  (found-Distinct settings simulation_id worker_id now limit locked store distinct)
                  (found_row e).0)
          ])

    gone_lem :
        elem d.id (gone_ids gone)
        ≡ (elem d.id (map (λ (x : Delivery). x.id) rows) && not (is_live store.policies now d))
    gone_lem =
        rw (split_stale-gone store.policies now rows)
          (elim (Bool-cases (elem d.id (map (λ (x : Delivery). x.id) rows))) [
            | inr e ↦ rw e (
                elem-filter_absent (λ (x : Delivery). x.id)
                  (λ x. not (is_live store.policies now x)) d.id rows e)
            | inl e ↦ rw e (
                elem-filter_own (λ (x : Delivery). x.id) (λ x. not (is_live store.policies now x))
                  rows d
                  (found-Distinct settings simulation_id worker_id now limit locked store distinct)
                  (found_row e).0)
          ])

    -- A row is expired, found stale; or leased; or left as it was. The first two were ready.
    pub claimed_row-cases :
        (claimed_row d ≡ d)
        ⊎ (((gone : ℕ × Reason) × (is_ready d.state ≡ true)
              × (claimed_row d ≡ expire_row now gone d))
            ⊎ ((is_ready d.state ≡ true)
                × (claimed_row d
                    ≡ lease_row worker_id (now + settings.lease_duration_virtual_s) d)))
    unfolding claimed_row
    claimed_row-cases = elim (Bool-cases (elem d.id live_ids)) [
      | inl e ↦
          let found = found_row (ground (arith, live_lem)) in
          let kept = expire_absent now gone d (ground (arith, live_lem, gone_lem)) in
          inr (inr (found.1, rw (kept, e) refl))
      | inr e ↦
          elim (update_row_last names (expire_row now) (λ p q x. refl) (λ p q x. refl) gone d) [
            | inl kept ↦ inl (rw (kept, e) refl)
            | inr (g, n, named, gone_row) ↦ elim (Bool-cases (elem d.id (gone_ids gone))) [
              | inl k ↦
                  inr (inl (g, (found_row (ground (arith, gone_lem))).1, rw (gone_row, e) refl))
              | inr k ↦ let kept = expire_absent now gone d k in inl (rw (kept, e) refl)
            ]
          ]
    ]
