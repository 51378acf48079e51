-- ===== src/System/Reach.antt =====
-- Every reachable state of the system.
use mathlib.Core.List.{Memᴰ}
use mathlib.Core.List.Memᴰ.{head, tail}
use webhook_recovery.Prelude.{
  ℕ, ◌+◌, ◌<◌, ◌≡◌, refl, ap, sym, subst, ◌∙◌, ◌⊎◌, inl, inr, Bool, true, false, List, [], ◌∷◌,
  ◌++◌, map, arith, ◌==◌, All-mono, All-Memᴰ, All-append, Distinct, Bool-cases, id_unique, ==_iff,
  map-map,
}
use webhook_recovery.Core.Settings.{Settings}
use webhook_recovery.Core.Models.{Simulation, Store, Delivery}
use webhook_recovery.Api.Ingest.{EventSpec, ingest_events}
use webhook_recovery.Api.Ingest.Fresh.{IsFresh, ingest_events-IsFresh}
use webhook_recovery.Api.Ingest.Serials.{IsSerial, ingest_events-IsSerial}
use webhook_recovery.Conductor.Metrics.{Cursors}
use webhook_recovery.Conductor.Service.{Readings, run_once}
use webhook_recovery.Conductor.Service.Serials.{run_once-next}
use webhook_recovery.Worker.Claim.{Claimed, lease_row, claim_batch}
use webhook_recovery.Worker.Claim.Rows.{claim_batch-next}
use webhook_recovery.Worker.Claim.Exclusive.{Taken, claim_batch-Taken}
use webhook_recovery.Worker.Complete.{Completion, complete_batch}
use webhook_recovery.Worker.Complete.Fence.{delivery_ids, complete_batch-next}
use webhook_recovery.System.Turns.{nobody}
use webhook_recovery.System.Life.{IsWithin}
use webhook_recovery.System.Works.{IsCurrent, claim_batch-Moved, complete_batch-Moved}
use webhook_recovery.System.Conducts.{run_once-Moved}
use webhook_recovery.System.Steps.{
  System, set_batch, claimed_system, Step, ingests, conducts, claims, completes, loses, edits,
  Reach, start, later,
}
use webhook_recovery.System.Invariant.{Inv, Moved-IsWithin, Moved-IsCurrent, Moved-IsSerial}

-- A fact about every worker's batch, after one worker's batch has changed.
set_batch_each {ℓ} :
    (P : ℕ → List Claimed → Type ℓ) (worker_id : ℕ) (batch : List Claimed)
    (batches : ℕ → List Claimed)
    → P worker_id batch
    → ((v : ℕ) → (worker_id == v) ≡ false → P v (batches v))
    → (v : ℕ) → P v (set_batch worker_id batch batches v)
set_batch_each P worker_id batch batches p q v = elim (Bool-cases (worker_id == v)) [
  | inr e ↦ rw e (q v e)
  | inl e ↦ rw e (subst (λ u. P u batch) ((==_iff worker_id v).0 e) p)
]

Memᴰ-append_cases :
    (d : Delivery) (xs ys : List Delivery) → Memᴰ d (xs ++ ys) → Memᴰ d xs ⊎ Memᴰ d ys
Memᴰ-append_cases d [] ys m = inr m
Memᴰ-append_cases d (x ∷ xs) ys (head e) = inl (head e)
Memᴰ-append_cases d (x ∷ xs) ys (tail m) = elim (Memᴰ-append_cases d xs ys m) [
  | inl n ↦ inl (tail n)
  | inr n ↦ inr n
]

none-IsCurrent : (worker_id : ℕ) (ds : List Delivery) → IsCurrent worker_id [] ds
none-IsCurrent worker_id ds c d m n e h = elim m [ ]

module _ (settings : Settings) (s : System) (inv : Inv settings s) where
  ingests-Inv :
      (sim : Simulation) (specs : List EventSpec) (at_wall : ℕ)
      → 0 < settings.max_attempts
      → Inv settings (record s { store = (ingest_events sim specs at_wall s.store).0 })
  ingests-Inv sim specs at_wall some_attempt =
      let (new, fresh, written) = ingest_events-IsFresh sim specs at_wall s.store in
      record {
        serial = ingest_events-IsSerial sim specs at_wall s.store inv.serial;
        within = rw written (
            All-append (IsWithin settings) s.store.deliveries new inv.within (
              All-mono (IsFresh s.store.next_delivery_id) (IsWithin settings)
                (λ d f. record {
                  queued = λ h. omega (arith, f.untried, some_attempt);
                  counted = omega (arith, f.untried, some_attempt);
                })
                new fresh));
        distinct = inv.distinct;
        current = λ w c d m n e h.
            elim (Memᴰ-append_cases d s.store.deliveries new (subst (Memᴰ d) written n)) [
              | inl k ↦ inv.current w c d m k e h
              | inr k ↦
                  let waits = (All-Memᴰ (IsFresh s.store.next_delivery_id) new d fresh k).waits in
                  let bad : true ≡ false = sym h ∙ rw waits refl in cc
            ];
      }

  conducts-Inv :
      (locked : ℕ → Bool) (readings : ℕ → Readings) (cursors : Cursors)
      → Inv settings (record s { store = (run_once settings locked readings (cursors, s.store)).1 })
  conducts-Inv locked readings cursors =
      let after = (run_once settings locked readings (cursors, s.store)).1 in
      let turn = run_once-Moved settings locked readings cursors s.store inv.serial.distinct in
      let next = run_once-next settings locked readings cursors s.store in
      record {
        serial =
            Moved-IsSerial settings nobody s.store.deliveries after.deliveries turn s.store after
              refl refl next inv.serial;
        within = Moved-IsWithin settings nobody s.store.deliveries after.deliveries turn inv.within;
        distinct = inv.distinct;
        current = λ w.
            Moved-IsCurrent settings nobody s.store.deliveries after.deliveries turn w (s.batches w)
              refl (inv.current w);
      }

  claims-Inv :
      (simulation_id worker_id now limit : ℕ) (locked : ℕ → Bool)
      → Inv settings (claimed_system settings simulation_id worker_id now limit locked s)
  claims-Inv simulation_id worker_id now limit locked =
      let out = claim_batch settings simulation_id worker_id now limit locked s.store in
      let turn =
        claim_batch-Moved settings simulation_id worker_id now limit locked s.store
          inv.serial.distinct in
      let (few, apart, taken) =
        claim_batch-Taken settings simulation_id worker_id now limit locked s.store
          inv.serial.distinct in
      let own : ℕ → Bool = λ v. worker_id == v in
      let ds = s.store.deliveries in
      let serial : IsSerial out.0 =
        Moved-IsSerial settings own ds out.0.deliveries turn s.store out.0 refl refl
          (claim_batch-next settings simulation_id worker_id now limit locked s.store) inv.serial in
      record {
        serial = serial;
        within = Moved-IsWithin settings own ds out.0.deliveries turn inv.within;
        distinct =
            set_batch_each (λ v batch. Distinct (map (λ c. c.delivery_id) batch)) worker_id out.1
              s.batches apart (λ v e. inv.distinct v);
        current =
            set_batch_each (λ v batch. IsCurrent v batch out.0.deliveries) worker_id out.1 s.batches
              (λ c d m n named h.
                let (d₀, free, live, t) =
                  All-Memᴰ
                    (Taken settings simulation_id worker_id now limit locked s.store
                      inv.serial.distinct out.0)
                    out.1 c taken m in
                let at = now + settings.lease_duration_virtual_s in
                let same : d ≡ lease_row worker_id at d₀ =
                  id_unique (λ (x : Delivery). x.id) out.0.deliveries d (lease_row worker_id at d₀)
                    serial.distinct n t.leased (named ∙ t.named) in
                ap (λ (x : Delivery). x.attempt_count) same ∙ sym t.numbered)
              (λ v e.
                Moved-IsCurrent settings own ds out.0.deliveries turn v (s.batches v) e
                  (inv.current v));
      }

  pub batch-Distinct :
      (worker_id : ℕ) (completions : List Completion)
      → map (λ c. c.claimed) completions ≡ s.batches worker_id
      → Distinct (delivery_ids completions)
  batch-Distinct worker_id completions batch =
      subst Distinct
        (ap (map (λ (c : Claimed). c.delivery_id)) (sym batch)
          ∙ map-map (λ (c : Claimed). c.delivery_id) (λ (c : Completion). c.claimed) completions)
        (inv.distinct worker_id)

  pub batch-IsCurrent :
      (worker_id : ℕ) (completions : List Completion)
      → map (λ c. c.claimed) completions ≡ s.batches worker_id
      → IsCurrent worker_id (map (λ c. c.claimed) completions) s.store.deliveries
  batch-IsCurrent worker_id completions batch =
      subst (λ b. IsCurrent worker_id b s.store.deliveries) (sym batch) (inv.current worker_id)

  completes-Inv :
      (worker_id now : ℕ) (completions : List Completion)
      → map (λ c. c.claimed) completions ≡ s.batches worker_id
      → Inv settings (record {
        store = complete_batch settings worker_id completions now s.store;
        batches = set_batch worker_id [] s.batches;
      })
  completes-Inv worker_id now completions batch =
      let after = complete_batch settings worker_id completions now s.store in
      let ds = s.store.deliveries in
      let turn =
        complete_batch-Moved settings worker_id now completions s.store
          (batch-Distinct worker_id completions batch)
          (batch-IsCurrent worker_id completions batch) in
      record {
        serial =
            Moved-IsSerial settings nobody ds after.deliveries turn s.store after refl refl
              (complete_batch-next settings worker_id now completions s.store) inv.serial;
        within = Moved-IsWithin settings nobody ds after.deliveries turn inv.within;
        distinct =
            set_batch_each (λ v b. Distinct (map (λ c. c.delivery_id) b)) worker_id [] s.batches tt
              (λ v e. inv.distinct v);
        current =
            set_batch_each (λ v b. IsCurrent v b after.deliveries) worker_id [] s.batches
              (none-IsCurrent worker_id after.deliveries)
              (λ v e.
                Moved-IsCurrent settings nobody ds after.deliveries turn v (s.batches v) refl
                  (inv.current v));
      }

  loses-Inv :
      (worker_id : ℕ) → Inv settings (record s { batches = set_batch worker_id [] s.batches })
  loses-Inv worker_id = record {
    serial = inv.serial;
    within = inv.within;
    distinct =
        set_batch_each (λ v b. Distinct (map (λ c. c.delivery_id) b)) worker_id [] s.batches tt
          (λ v e. inv.distinct v);
    current =
        set_batch_each (λ v b. IsCurrent v b s.store.deliveries) worker_id [] s.batches
          (none-IsCurrent worker_id s.store.deliveries) (λ v e. inv.current v);
  }

  edits-Inv :
      (store' : Store)
      → store'.deliveries ≡ s.store.deliveries
      → store'.next_delivery_id ≡ s.store.next_delivery_id
      → Inv settings (record s { store = store' })
  edits-Inv store' e next = record {
    serial = record { distinct = rw e inv.serial.distinct; below = rw (e, next) inv.serial.below };
    within = rw e inv.within;
    distinct = inv.distinct;
    current = λ w c d m n. inv.current w c d m (subst (Memᴰ d) e n);
  }

module _ (settings : Settings) (some_attempt : 0 < settings.max_attempts) where
  pub Step-Inv : (s t : System) → Step settings s t → Inv settings s → Inv settings t
  Step-Inv s t (ingests sim specs at_wall) inv =
      ingests-Inv settings s inv sim specs at_wall some_attempt
  Step-Inv s t (conducts locked readings cursors) inv =
      conducts-Inv settings s inv locked readings cursors
  Step-Inv s t (claims simulation_id worker_id now limit locked idle) inv =
      claims-Inv settings s inv simulation_id worker_id now limit locked
  Step-Inv s t (completes worker_id now completions batch) inv =
      completes-Inv settings s inv worker_id now completions batch
  Step-Inv s t (loses worker_id) inv = loses-Inv settings s inv worker_id
  Step-Inv s t (edits store' e _ next) inv = edits-Inv settings s inv store' e next

  -- Where the settings allow an attempt at all, the invariant is kept by every sequence of steps,
  -- in any order and of any workers: ingests, runs of the conductor, claims, completions with any
  -- outcomes, crashes with work in hand, and changes of what the API owns. So in every state
  -- reached from one that has it, the deliveries have distinct serial ids, no delivery has had more
  -- than `max_attempts` attempts and a queued one has an attempt left, no worker has one delivery
  -- in hand twice, and the attempt number of a claim that still holds its lease is the table's.
  pub Reach-Inv : (s t : System) → Reach settings s t → Inv settings s → Inv settings t
  Reach-Inv s t start inv = inv
  Reach-Inv s u (later {t} r step) inv = Step-Inv t u step (Reach-Inv s t r inv)
