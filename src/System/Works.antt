-- ===== src/System/Works.antt =====
-- The workers' moves: app/worker/claim.py.
use mathlib.Core.List.{Memᴰ}
use webhook_recovery.Prelude.{
  ℕ, ◌+◌, ◌≡◌, refl, sym, inl, inr, Bool, true, false, List, map, ◌==◌, leb, elem, Distinct,
  Bool-cases, row_of_elem, Memᴰ-map,
}
use webhook_recovery.Core.Settings.{Settings}
use webhook_recovery.Core.Models.{Store, Delivery}
use webhook_recovery.Worker.Claim.{Claimed, lease_row, claim_batch}
use webhook_recovery.Worker.Claim.Rows.{claimed_row, claim_batch-map, claimed_row-cases}
use webhook_recovery.Worker.Complete.{Completion, is_ok, held, complete_batch}
use webhook_recovery.Worker.Complete.Fence.{
  delivery_ids, settle_row, settle_row-unheld, settle_row-other, settle_row-held, outcome_row,
  complete_batch-deliveries,
}
use webhook_recovery.System.Rows.{leases, expires, delivers, fails, retries, one_move, Moved}
use webhook_recovery.System.Turns.{Turn, Idle, rests, quiet}

module _ (settings : Settings) (simulation_id worker_id now limit : ℕ) (locked : ℕ → Bool)
    (store : Store) (distinct : Distinct (map (λ d. d.id) store.deliveries)) where
  leased_away :
      (at v : ℕ) (d : Delivery)
      → (worker_id == v) ≡ false
      → held v (lease_row worker_id at d) ≡ false
  leased_away at v d h = h

  claimed_row-Turn :
      (d : Delivery)
      → Memᴰ d store.deliveries
      → Turn settings
          (λ v. worker_id == v)
          d
          (claimed_row settings simulation_id worker_id now limit locked store d)
  claimed_row-Turn d m =
      elim (claimed_row-cases settings simulation_id worker_id now limit locked store distinct d
        m) [
          | inl e ↦ rw e (rests d)
          | inr (inl (gone, r, e)) ↦ rw e (quiet d _ (expires now gone r refl) refl refl)
          | inr (inr (r, e)) ↦
              let at = now + settings.lease_duration_virtual_s in
              rw e (record {
                path = one_move (leases worker_id at r refl);
                same = refl;
                spares = λ v h. inr (leased_away at v d h);
              })
        ]

  -- A claim takes each delivery along its moves, and gives it to the worker or to nobody.
  pub claim_batch-Moved :
      Moved
        (Turn settings (λ v. worker_id == v))
        store.deliveries
        (claim_batch settings simulation_id worker_id now limit locked store).0.deliveries
  claim_batch-Moved = record {
    move = claimed_row settings simulation_id worker_id now limit locked store;
    moved = claim_batch-map settings simulation_id worker_id now limit locked store;
    each = claimed_row-Turn;
  }

-- What a batch says of a delivery that the worker still holds is what the table says.
abbrev pub IsCurrent : ℕ → List Claimed → List Delivery → Type 0
IsCurrent worker_id batch ds =
    (c : Claimed) (d : Delivery)
    → Memᴰ c batch
    → Memᴰ d ds
    → d.id ≡ c.delivery_id
    → held worker_id d ≡ true
    → d.attempt_count ≡ c.attempt_no

module _ (settings : Settings) (worker_id now : ℕ) (completions : List Completion) (store : Store)
    (distinct : Distinct (delivery_ids completions))
    (current : IsCurrent worker_id (map (λ c. c.claimed) completions) store.deliveries) where
  outcome_row-Turn :
      (c : Completion) (d : Delivery)
      → held worker_id d ≡ true
      → d.attempt_count ≡ c.claimed.attempt_no
      → Idle settings d (outcome_row settings worker_id now completions c d)
  outcome_row-Turn c d h e = elim (Bool-cases (is_ok c.outcome)) [
    | inl k ↦ rw k (quiet d _ (delivers worker_id now h refl) refl refl)
    | inr k ↦ elim (Bool-cases (leb settings.max_attempts c.claimed.attempt_no)) [
      | inl f ↦ rw (k, f) (quiet d _ (fails worker_id now c h (rw e f) refl) refl refl)
      | inr f ↦ rw (k, f) (quiet d _ (retries worker_id now c h (rw e f) refl) refl refl)
    ]
  ]

  settle_row-Turn :
      (d : Delivery)
      → Memᴰ d store.deliveries
      → Idle settings d (settle_row settings worker_id now completions d)
  settle_row-Turn d m = elim (Bool-cases (held worker_id d)) [
    | inr h ↦ rw (settle_row-unheld settings worker_id now completions d h) (rests d)
    | inl h ↦ elim (Bool-cases (elem d.id (delivery_ids completions))) [
      | inr e ↦ rw (settle_row-other settings worker_id now completions d e) (rests d)
      | inl e ↦
          let (c, n, f) =
            row_of_elem (λ (x : Completion). x.claimed.delivery_id) d.id completions e in
          rw (settle_row-held settings worker_id now completions c d distinct n (sym f) h) (
            outcome_row-Turn c d h (
              current c.claimed d (Memᴰ-map (λ (x : Completion). x.claimed) c completions n) m
                (sym f) h))
    ]
  ]

  -- A completion takes each delivery along its moves, and leases none.
  pub complete_batch-Moved :
      Moved
        (Idle settings)
        store.deliveries
        (complete_batch settings worker_id completions now store).deliveries
  complete_batch-Moved = record {
    move = settle_row settings worker_id now completions;
    moved = complete_batch-deliveries settings worker_id now completions store;
    each = settle_row-Turn;
  }
