-- ===== src/System/Attempts.antt =====
-- Every attempt is on record: the two tables agree in every state.
use webhook_recovery.Prelude.{
  ℕ, ◌≤◌, ◌<◌, ◌≡◌, refl, ap, sym, subst, ◌∙◌, inl, inr, Bool, List, [], ◌∷◌, ◌++◌, map, arith,
  elem, All, All-mono, All-append, Distinct, Bool-cases, map-map,
}
use webhook_recovery.Core.Settings.{Settings}
use webhook_recovery.Core.Models.{Simulation, Store, Delivery}
use webhook_recovery.Api.Ingest.{EventSpec, ingest_events}
use webhook_recovery.Api.Ingest.Fresh.{IsFresh, ingest_events-IsFresh, ingest_events-attempts}
use webhook_recovery.Conductor.Metrics.{Cursors}
use webhook_recovery.Conductor.Policy.Written.{dropped_row-SettledBy}
use webhook_recovery.Conductor.Policy.{Drop}
use webhook_recovery.Conductor.Reaper.Sweep.{reclaimed_row, reclaim_expired_leases-map}
use webhook_recovery.Conductor.Service.{Readings, run_once}
use webhook_recovery.Conductor.Service.Rows.{admitted_row, admit-cases, run_once-R}
use webhook_recovery.Conductor.Service.Serials.{attempted, run_once-attempted, run_once-next}
use webhook_recovery.Worker.Claim.{claim_batch}
use webhook_recovery.Worker.Claim.Rows.{
  live_ids, claimed_row, claimed_row-id, claimed_row-tries, claim_batch-map, claim_batch-attempted,
  claim_batch-next, live_ids-Distinct, live_ids-below,
}
use webhook_recovery.Worker.Complete.{complete_batch}
use webhook_recovery.Worker.Complete.Fence.{
  settle_row, settle_row-id, settle_row-tries, complete_batch-deliveries, complete_batch-attempted,
  complete_batch-next,
}
use webhook_recovery.System.Steps.{
  System, Step, ingests, conducts, claims, completes, loses, edits, Reach, start, later,
}
use webhook_recovery.System.Life.{IsWithin}
use webhook_recovery.System.Invariant.{Inv}
use webhook_recovery.System.Reach.{Step-Inv}
use webhook_recovery.System.Ledger.{
  tries_of, IsLedger, tries-append, tries-Distinct, no_tries_yet, All-map, kept-IsLedger,
}

-- Rows that keep their ids and their counts.
record Uncounted (ds ds' : List Delivery) : Type 0 where
  move : Delivery → Delivery
  moved : ds' ≡ map move ds
  ids : (d : Delivery) → (move d).id ≡ d.id
  counts : (d : Delivery) → (move d).attempt_count ≡ d.attempt_count

map_itself : (ds : List Delivery) → ds ≡ map (λ d. d) ds
map_itself [] = refl
map_itself (d ∷ ds) = ap (◌∷◌ d) (map_itself ds)

uncounted : (ds : List Delivery) → Uncounted ds ds
uncounted ds = record { move = λ d. d; moved = map_itself ds; ids = λ d. refl; counts = λ d. refl }

both-Uncounted :
    (ds ds' ds'' : List Delivery) → Uncounted ds ds' → Uncounted ds' ds'' → Uncounted ds ds''
both-Uncounted ds ds' ds'' p q = record {
  move = λ d. q.move (p.move d);
  moved = q.moved ∙ ap (map q.move) p.moved ∙ map-map q.move p.move ds;
  ids = λ d. q.ids (p.move d) ∙ p.ids d;
  counts = λ d. q.counts (p.move d) ∙ p.counts d;
}

admitted_row_keeps :
    (drops : List Drop) (ids : List ℕ) (now : ℕ) (d : Delivery)
    → ((admitted_row drops ids now d).id ≡ d.id)
      × ((admitted_row drops ids now d).attempt_count ≡ d.attempt_count)
admitted_row_keeps drops ids now d = elim (Bool-cases (elem d.id ids)) [
  | inl e ↦ elim (dropped_row-SettledBy drops now d) [
    | inl f ↦ rw (f, e) (refl, refl)
    | inr (drop, m, named, f) ↦ rw (f, e) (refl, refl)
  ]
  | inr e ↦ elim (dropped_row-SettledBy drops now d) [
    | inl f ↦ rw (f, e) (refl, refl)
    | inr (drop, m, named, f) ↦ rw (f, e) (refl, refl)
  ]
]

module _ (settings : Settings) (locked : ℕ → Bool) where
  run_once-Uncounted :
      (readings : ℕ → Readings) (cursors : Cursors) (store : Store)
      → Distinct (map (λ d. d.id) store.deliveries)
      → Uncounted store.deliveries (run_once settings locked readings (cursors, store)).1.deliveries
  run_once-Uncounted =
      run_once-R settings locked Uncounted uncounted both-Uncounted
        (λ simulation_id now store u. record {
          move = reclaimed_row settings simulation_id now locked;
          moved = reclaim_expired_leases-map settings simulation_id now locked store u;
          ids = λ d. ground arith;
          counts = λ d. ground arith;
        })
        (λ sim now gauges store u. elim (admit-cases settings sim now gauges store u) [
          | inl e ↦ subst (Uncounted store.deliveries) (sym e) (uncounted store.deliveries)
          | inr how ↦ record {
            move = admitted_row how.drops how.admit now;
            moved = how.written;
            ids = λ d. (admitted_row_keeps how.drops how.admit now d).0;
            counts = λ d. (admitted_row_keeps how.drops how.admit now d).1;
          }
        ])

module _ (settings : Settings) (s : System) (inv : Inv settings s) (l : IsLedger s.store) where
  ingests-IsLedger :
      (sim : Simulation) (specs : List EventSpec) (at_wall : ℕ)
      → IsLedger (ingest_events sim specs at_wall s.store).0
  ingests-IsLedger sim specs at_wall =
      let out = (ingest_events sim specs at_wall s.store).0 in
      let (new, fresh, written) = ingest_events-IsFresh sim specs at_wall s.store in
      let (same, grows) = ingest_events-attempts sim specs at_wall s.store in
      let next = s.store.next_delivery_id in
      let Agrees = λ (d : Delivery). tries_of d.id (attempted s.store) ≡ d.attempt_count in
      record {
        agree =
            rw (written, same)
              (All-append Agrees s.store.deliveries new l.agree (
                All-mono (IsFresh next) Agrees
                  (λ d f.
                    no_tries_yet d.id (attempted s.store) (
                      All-mono (λ i. i < next) (λ i. i < d.id) (λ i h. omega (arith, h, f.numbered))
                        _ l.known)
                    ∙ sym f.untried)
                  new fresh));
        known = rw same (
            All-mono (λ i. i < next) (λ i. i < out.next_delivery_id)
              (λ i h. omega (arith, h, grows)) _ l.known);
      }

  claims-IsLedger :
      (simulation_id worker_id now limit : ℕ) (locked : ℕ → Bool)
      → IsLedger (claim_batch settings simulation_id worker_id now limit locked s.store).0
  claims-IsLedger simulation_id worker_id now limit locked =
      let live = live_ids settings simulation_id worker_id now limit locked s.store in
      let row = claimed_row settings simulation_id worker_id now limit locked s.store in
      let once =
        live_ids-Distinct settings simulation_id worker_id now limit locked s.store
          inv.serial.distinct in
      let Agrees = λ (d : Delivery). tries_of d.id (attempted s.store) ≡ d.attempt_count in
      let Agrees' = λ (d : Delivery). tries_of d.id (attempted s.store ++ live) ≡ d.attempt_count in
      record {
        agree =
            rw
              (
                claim_batch-map settings simulation_id worker_id now limit locked s.store,
                claim_batch-attempted settings simulation_id worker_id now limit locked s.store,
              )
              (All-map row Agrees' s.store.deliveries (
                All-mono Agrees (λ d. Agrees' (row d))
                  (λ d e.
                    rw
                      (
                        claimed_row-id settings simulation_id worker_id now limit locked s.store d,
                        claimed_row-tries settings simulation_id worker_id now limit locked s.store
                            d,
                      )
                      (omega (
                        arith,
                        tries-append d.id (attempted s.store) live,
                        e,
                        tries-Distinct d.id live once,
                      )))
                  s.store.deliveries l.agree));
        known =
            rw
              (
                claim_batch-attempted settings simulation_id worker_id now limit locked s.store,
                claim_batch-next settings simulation_id worker_id now limit locked s.store,
              )
              (All-append (λ i. i < s.store.next_delivery_id) (attempted s.store) live l.known
                (live_ids-below settings simulation_id worker_id now limit locked s.store
                  inv.serial.distinct s.store.next_delivery_id inv.serial.below));
      }

All-both :
    (P Q R : Delivery → Type 0)
    → ((d : Delivery) → P d → Q d → R d)
    → (ds : List Delivery) → All P ds
    → All Q ds
    → All R ds
All-both P Q R f [] p q = tt
All-both P Q R f (d ∷ ds) p q = (f d p.0 q.0, All-both P Q R f ds p.1 q.1)

module _ (settings : Settings) (some_attempt : 0 < settings.max_attempts) where
  Step-IsLedger :
      (s t : System) → Step settings s t → Inv settings s → IsLedger s.store → IsLedger t.store
  Step-IsLedger s t (ingests sim specs at_wall) inv l =
      ingests-IsLedger settings s inv l sim specs at_wall
  Step-IsLedger s t (conducts locked readings cursors) inv l =
      let u = run_once-Uncounted settings locked readings cursors s.store inv.serial.distinct in
      kept-IsLedger s.store (run_once settings locked readings (cursors, s.store)).1 u.move u.moved
        u.ids u.counts (run_once-attempted settings locked readings cursors s.store)
        (run_once-next settings locked readings cursors s.store) l
  Step-IsLedger s t (claims simulation_id worker_id now limit locked idle) inv l =
      claims-IsLedger settings s inv l simulation_id worker_id now limit locked
  Step-IsLedger s t (completes worker_id now completions batch) inv l =
      kept-IsLedger s.store (complete_batch settings worker_id completions now s.store)
        (settle_row settings worker_id now completions)
        (complete_batch-deliveries settings worker_id now completions s.store)
        (settle_row-id settings worker_id now completions)
        (settle_row-tries settings worker_id now completions)
        (complete_batch-attempted settings worker_id now completions s.store)
        (complete_batch-next settings worker_id now completions s.store) l
  Step-IsLedger s t (loses worker_id) inv l = l
  Step-IsLedger s t (edits store' e f next) inv l = record {
    agree = rw (e, f) l.agree;
    known = rw (f, next) l.known;
  }

  reach_both :
      (s t : System)
      → Reach settings s t
      → Inv settings s
      → IsLedger s.store
      → Inv settings t × IsLedger t.store
  reach_both s t start inv l = (inv, l)
  reach_both s u (later {t} r step) inv l =
      let (inv_t, k) = reach_both s t r inv l in
      (Step-Inv settings some_attempt t u step inv_t, Step-IsLedger t u step inv_t k)

  -- Every attempt is on record, and there are not too many of them. Where an attempt is allowed, in
  -- every state that steps lead to from one with the invariant whose two tables agree, each
  -- delivery has in the table of attempts exactly as many as it counts, and at most `max_attempts`.
  pub Reach-attempts :
      (s t : System)
      → Reach settings s t
      → Inv settings s
      → IsLedger s.store
      → All
          (λ d.
            let tried = tries_of d.id (map (λ a. a.delivery_id) t.store.attempts) in
            (tried ≡ d.attempt_count) × (tried ≤ settings.max_attempts))
          t.store.deliveries
  Reach-attempts s t r inv l =
      let (inv_t, k) = reach_both s t r inv l in
      let Agrees = λ (d : Delivery). tries_of d.id (attempted t.store) ≡ d.attempt_count in
      All-both Agrees (IsWithin settings)
        (λ d. Agrees d × (tries_of d.id (attempted t.store) ≤ settings.max_attempts))
        (λ d e w. (e, omega (arith, e, w.counted))) t.store.deliveries k.agree inv_t.within
