-- ===== src/Worker/Claim/Exclusive.antt =====
-- What a claim takes, and what it writes for it.
use mathlib.Core.List.{Memᴰ}
use mathlib.Core.List.Memᴰ.{head, tail}
use webhook_recovery.Prelude.{
  ℕ, suc, ◌+◌, ◌≤◌, ◌≡◌, refl, ap, subst, ◌∙◌, Bool, true, false, not, ◌&&◌, Option, none, some,
  List, [], ◌∷◌, ◌++◌, map, arith, ◌==◌, if◌then◌else◌, filter, elem, update_row, length,
  length-take-le, All, All-mono, All-mem, All-filter, All-take, All-order_by, All-Memᴰ, Distinct,
  Memᴰ-map, elem-filter_own, filter-Distinct, take-Distinct, order_by-Distinct,
}
use webhook_recovery.Core.Enums.{is_ready}
use webhook_recovery.Core.Settings.{Settings}
use webhook_recovery.Core.Models.{Store, DeliveryPolicy, Delivery, Attempt, Reason}
use webhook_recovery.Conductor.Policy.{staleness}
use webhook_recovery.Worker.Claim.{
  Claimed, joined_bound, ready_order, unready, by_ready, claimable, split_stale, expire_row, expire,
  lease_row, lease, new_attempt, insert_attempts, claims, claim_batch,
}

abbrev pub id_of : Delivery → ℕ
id_of d = d.id

abbrev is_none {ℓ} : {A : Type ℓ} → Option A → Bool
is_none none = true
is_none (some a) = false

abbrev pub is_live : List DeliveryPolicy → ℕ → Delivery → Bool
is_live policies now d = is_none (staleness now d.created_at (joined_bound policies d))

pub split_stale-live :
    (policies : List DeliveryPolicy) (now : ℕ) (ds : List Delivery)
    → (split_stale policies now ds).0 ≡ filter (is_live policies now) ds
unfolding split_stale
split_stale-live policies now [] = refl
split_stale-live policies now (d ∷ ds) = ground (arith, split_stale-live policies now ds)

abbrev pub gone_ids : List (ℕ × Reason) → List ℕ
gone_ids = map (λ (id, reason). id)

pub split_stale-gone :
    (policies : List DeliveryPolicy) (now : ℕ) (ds : List Delivery)
    → gone_ids (split_stale policies now ds).1
      ≡ map id_of (filter (λ d. not (is_live policies now d)) ds)
unfolding split_stale
split_stale-gone policies now [] = refl
split_stale-gone policies now (d ∷ ds) = ground (arith, split_stale-gone policies now ds)

pub expire_absent :
    (now : ℕ) (gone : List (ℕ × Reason)) (d : Delivery)
    → elem d.id (gone_ids gone) ≡ false
    → update_row (λ (id, reason) d. d.id == id) (expire_row now) gone d ≡ d
expire_absent now [] d h = refl
expire_absent now ((id, reason) ∷ gone) d h = ground (arith, expire_absent now gone d)

length-claims : (next : ℕ) (ds : List Delivery) → length (claims next ds) ≡ length ds
unfolding claims
length-claims next [] = refl
length-claims next (d ∷ ds) = ap suc (length-claims (next + 1) ds)

length-filter-le : (p : Delivery → Bool) (ds : List Delivery) → length (filter p ds) ≤ length ds
length-filter-le p [] = omega arith
length-filter-le p (d ∷ ds) = ground (arith, length-filter-le p ds)

claims-ids :
    (next : ℕ) (ds : List Delivery) → map (λ c. c.delivery_id) (claims next ds) ≡ map id_of ds
unfolding claims
claims-ids next [] = refl
claims-ids next (d ∷ ds) = ap (◌∷◌ d.id) (claims-ids (next + 1) ds)

module _ (simulation_id worker_id now lease_expires_at : ℕ) where
  -- A claim of a row, its lease in the table and its attempt.
  pub record Takes (deliveries : List Delivery) (attempts : List Attempt) (d : Delivery)
      (c : Claimed) : Type 0 where
    pub named : c.delivery_id ≡ d.id
    pub numbered : c.attempt_no ≡ d.attempt_count + 1
    pub leased : Memᴰ (lease_row worker_id lease_expires_at d) deliveries
    pub started : Memᴰ (new_attempt simulation_id worker_id now c.attempt_id d) attempts

  claims-Takes :
      (deliveries : List Delivery) (attempts : List Attempt) (next : ℕ) (ds : List Delivery)
      → All (λ d. Memᴰ (lease_row worker_id lease_expires_at d) deliveries) ds
      → ((a : Attempt)
          → Memᴰ a (insert_attempts simulation_id worker_id now next ds)
          → Memᴰ a attempts)
      → All (λ c. (d : Delivery) × Memᴰ d ds × Takes deliveries attempts d c) (claims next ds)
  unfolding claims insert_attempts
  claims-Takes deliveries attempts next [] h f = tt
  claims-Takes deliveries attempts next (d ∷ ds) h f = (
    (
      d,
      head refl,
      record { named = refl; numbered = refl; leased = h.0; started = f _ (head refl) },
    ),
    All-mono (λ c. (x : Delivery) × Memᴰ x ds × Takes deliveries attempts x c)
        (λ c. (x : Delivery) × Memᴰ x (d ∷ ds) × Takes deliveries attempts x c)
        (λ c (x, m, t). (x, tail m, t)) _
        (claims-Takes deliveries attempts (next + 1) ds h.1 (λ a m. f a (tail m))),
  )

Memᴰ-append_right {ℓ} : {A : Type ℓ} (a : A) (xs ys : List A) → Memᴰ a ys → Memᴰ a (xs ++ ys)
Memᴰ-append_right a [] ys m = m
Memᴰ-append_right a (x ∷ xs) ys m = tail (Memᴰ-append_right a xs ys m)

module _ (settings : Settings) (simulation_id worker_id now limit : ℕ) (locked : ℕ → Bool)
    (store : Store) (distinct : Distinct (map (λ d. d.id) store.deliveries)) where
  abbrev pub found : List Delivery
  found = claimable simulation_id locked limit store.deliveries

  -- A ready row of the simulation that no other transaction holds.
  pub record IsFree (d : Delivery) : Type 0 where
    pub listed : Memᴰ d store.deliveries
    pub own : (d.simulation_id == simulation_id) ≡ true
    pub ready : is_ready d.state ≡ true
    pub unlocked : locked d.id ≡ false

  pub found-IsFree : All IsFree found
  unfolding claimable
  found-IsFree =
      let p = λ (d : Delivery). d.simulation_id == simulation_id && is_ready d.state in
      let q = λ (d : Delivery). not (locked d.id) in
      let Row = λ (d : Delivery). Memᴰ d store.deliveries × (p d ≡ true) in
      let ordered = by_ready (filter p store.deliveries) in
      All-take IsFree limit (filter q ordered) (
        All-mono (λ d. Row d × (q d ≡ true)) IsFree
          (λ d ((m, e), f). record {
            listed = m;
            own = ground arith;
            ready = ground arith;
            unlocked = ground arith;
          })
          (filter q ordered)
          (All-filter Row q ordered (
            All-order_by Row unready _ (
              All-order_by Row ready_order _ (
                All-filter (λ d. Memᴰ d store.deliveries) p store.deliveries
                  (All-mem store.deliveries))))))

  pub found-Distinct : Distinct (map id_of found)
  unfolding claimable
  found-Distinct = take-Distinct id_of limit _ (
      filter-Distinct id_of _ _ (
        order_by-Distinct id_of unready _ (
          order_by-Distinct id_of ready_order _
            (filter-Distinct id_of _ store.deliveries distinct))))

  length-claimable-le : length found ≤ limit
  unfolding claimable
  length-claimable-le = length-take-le limit _

  leased_row :
      (lease_expires_at : ℕ) (d : Delivery)
      → Memᴰ d found
      → is_live store.policies now d ≡ true
      → Memᴰ d store.deliveries
      → Memᴰ (lease_row worker_id lease_expires_at d) (
          lease worker_id lease_expires_at
            (map id_of (split_stale store.policies now found).0)
            (expire now (split_stale store.policies now found).1 store.deliveries))
  unfolding lease expire
  leased_row at d m live listed =
      let ids = map id_of (split_stale store.policies now found).0 in
      let gone = (split_stale store.policies now found).1 in
      let chosen : elem d.id ids ≡ true =
        rw (split_stale-live store.policies now found)
          (elem-filter_own id_of (is_live store.policies now) found d found-Distinct m ∙ live) in
      let kept : elem d.id (gone_ids gone) ≡ false =
        rw (split_stale-gone store.policies now found) (
          elem-filter_own id_of (λ x. not (is_live store.policies now x)) found d found-Distinct m
          ∙ ap not live) in
      let there =
        Memᴰ-map (λ (x : Delivery). if elem x.id ids then lease_row worker_id at x else x) _ _
          (Memᴰ-map (update_row (λ (id, reason) x. x.id == id) (expire_row now) gone) d
            store.deliveries listed) in
      subst (λ x. Memᴰ x (lease worker_id at ids (expire now gone store.deliveries)))
        (ap (λ (x : Delivery). if elem x.id ids then lease_row worker_id at x else x)
            (expire_absent now gone d kept)
          ∙ (rw chosen))
        there

  abbrev pub Taken : Store → Claimed → Type 0
  Taken after c =
      (d : Delivery) × IsFree d
      × (is_live store.policies now d ≡ true)
      × Takes simulation_id worker_id now (now + settings.lease_duration_virtual_s) after.deliveries
          after.attempts d c

  -- A claim, with distinct deliveries, takes at most the limit and no delivery twice. Each delivery
  -- it takes was a ready row of the simulation that no other transaction held and that is not stale;
  -- the claim carries its next attempt number; and afterwards the table has its row in flight,
  -- leased to the worker for the lease's duration and with that attempt counted, and an open
  -- attempt that has just started.
  pub claim_batch-Taken :
      let out = claim_batch settings simulation_id worker_id now limit locked store in
      (length out.1 ≤ limit) × Distinct (map (λ c. c.delivery_id) out.1) × All (Taken out.0) out.1
  unfolding claim_batch
  claim_batch-Taken =
      let live = (split_stale store.policies now found).0 in
      let gone = (split_stale store.policies now found).1 in
      let at = now + settings.lease_duration_virtual_s in
      let ds = lease worker_id at (map id_of live) (expire now gone store.deliveries) in
      let new = insert_attempts simulation_id worker_id now store.next_attempt_id live in
      let Live =
        λ (d : Delivery). (Memᴰ d found × IsFree d) × (is_live store.policies now d ≡ true) in
      let all_live : All Live live = rw (split_stale-live store.policies now found) (
        All-filter (λ d. Memᴰ d found × IsFree d) (is_live store.policies now) found
          (All-mono (λ d. Memᴰ d found) (λ d. Memᴰ d found × IsFree d)
            (λ d m. (m, All-Memᴰ IsFree found d found-IsFree m)) found (All-mem found))) in
      (
        omega (
          arith,
          length-claims store.next_attempt_id live,
          ap length (split_stale-live store.policies now found),
          length-filter-le (is_live store.policies now) found,
          length-claimable-le,
        ),
        rw (claims-ids store.next_attempt_id live, split_stale-live store.policies now found)
            (filter-Distinct id_of (is_live store.policies now) found found-Distinct),
        All-mono
            (λ c.
              (d : Delivery) × Memᴰ d live
              × Takes simulation_id worker_id now at ds (store.attempts ++ new) d c)
            _
            (λ c (d, m, t).
              let ((_, free), fresh) = All-Memᴰ Live live d all_live m in (d, free, fresh, t))
            _
            (claims-Takes simulation_id worker_id now at ds (store.attempts ++ new)
              store.next_attempt_id live
              (All-mono Live (λ d. Memᴰ (lease_row worker_id at d) ds)
                (λ d ((m, free), fresh). leased_row at d m fresh free.listed) live all_live)
              (λ a m. Memᴰ-append_right a store.attempts new m)),
      )
