-- ===== src/System/Conducts.antt =====
-- The conductor's moves.
use mathlib.Core.List.{Memᴰ}
use mathlib.Core.List.Memᴰ.{head, tail}
use webhook_recovery.Conductor.Service.Rows.{admitted_row, Decision, admit-cases, run_once-R}
use webhook_recovery.Conductor.Service.{run_once}
use webhook_recovery.Prelude.{
  ℕ, ◌≡◌, refl, sym, ◌∙◌, subst, inl, inr, Bool, true, false, List, [], ◌∷◌, arith, ◌==◌, elem,
  All-Memᴰ, Distinct, Bool-cases,
}
use webhook_recovery.Core.Enums.{DeliveryState, expired, superseded, is_in_flight, is_pending}
use webhook_recovery.Core.Settings.{Settings}
use webhook_recovery.Core.Models.{Store, Delivery}
use webhook_recovery.Conductor.Metrics.{Cursors}
use webhook_recovery.Conductor.Policy.Dropped.{is_drop}
use webhook_recovery.Conductor.Policy.Written.{dropped_row-SettledBy}
use webhook_recovery.Conductor.Selection.Due.{DueId}
use webhook_recovery.Conductor.Reaper.{swept, reclaim_expired_leases, is_exhausted}
use webhook_recovery.Conductor.Reaper.Sweep.{reclaimed_row, reclaim_expired_leases-map}
use webhook_recovery.Conductor.Service.{Readings}
use webhook_recovery.Conductor.Service.Admit.{ids_of, other_id}
use webhook_recovery.System.Turns.{Idle, rests, quiet, both_turns}
use webhook_recovery.System.Rows.{admits, drops, requeues, exhausts, Moved, Moved-refl, Moved-trans}

module _ (settings : Settings) (simulation_id now : ℕ) (locked : ℕ → Bool) where
  reclaimed-Turn :
      (d : Delivery) → Idle settings d (reclaimed_row settings simulation_id now locked d)
  reclaimed-Turn d = elim (Bool-cases (swept simulation_id now locked d)) [
    | inr e ↦ rw e (rests d)
    | inl e ↦ elim (Bool-cases (is_exhausted settings d)) [
      | inl f ↦ rw (e, f) (quiet d _ (exhausts now (ground arith) f refl) refl refl)
      | inr f ↦ rw (e, f) (quiet d _ (requeues now (ground arith) f refl) refl refl)
    ]
  ]

  reclaim-Moved :
      (store : Store)
      → Distinct (ids_of store.deliveries)
      → Moved
          (Idle settings)
          store.deliveries
          (reclaim_expired_leases settings simulation_id now locked store).0.deliveries
  reclaim-Moved store u = record {
    move = reclaimed_row settings simulation_id now locked;
    moved = reclaim_expired_leases-map settings simulation_id now locked store u;
    each = λ d m. reclaimed-Turn d;
  }

elem-Memᴰ : (i : ℕ) (ids : List ℕ) → elem i ids ≡ true → (j : ℕ) × Memᴰ j ids × ((i == j) ≡ true)
elem-Memᴰ i [] h = cc
elem-Memᴰ i (j ∷ ids) h = elim (Bool-cases (i == j)) [
  | inl e ↦ (j, head refl, e)
  | inr e ↦ let (k, m, f) = elem-Memᴰ i ids (ground arith) in (k, tail m, f)
]

drop_settled : (s : DeliveryState) → is_drop s ≡ true → is_in_flight s ≡ false
drop_settled expired h = refl
drop_settled superseded h = refl
drop_settled _ h = cc

-- A row of the table whose id is due is pending.
due_pending :
    (simulation_id now : ℕ) (ds : List Delivery) (d : Delivery) (id : ℕ)
    → Distinct (ids_of ds)
    → Memᴰ d ds
    → (d.id == id) ≡ true
    → DueId simulation_id now ds id
    → is_pending d.state ≡ true
due_pending simulation_id now ds d id u m e due = elim (Bool-cases (is_pending d.state)) [
  | inl h ↦ h
  | inr h ↦ let bad : true ≡ false = sym e ∙ other_id simulation_id now ds d id u m h due in cc
]

module _ (settings : Settings) (simulation_id now : ℕ) (ds ds' : List Delivery)
    (u : Distinct (ids_of ds)) (how : Decision simulation_id now ds ds') where
  -- A row of a pass's decision is dropped, or admitted, or left as it was.
  decided-Turn :
      (d : Delivery) → Memᴰ d ds → Idle settings d (admitted_row how.drops how.admit now d)
  decided-Turn d m = elim (dropped_row-SettledBy how.drops now d) [
    | inl same ↦ rw same (elim (Bool-cases (elem d.id how.admit)) [
      | inr e ↦ rw e (rests d)
      | inl e ↦
          let (i, n, eq) = elem-Memᴰ d.id how.admit e in
          let due = All-Memᴰ (DueId simulation_id now ds) how.admit i how.admitted n in
          rw e (
            quiet d _ (admits now (due_pending simulation_id now ds d i u m eq due) refl) refl refl)
    ])
    | inr (drop, n, named, settled) ↦
        let due =
          All-Memᴰ (λ x. DueId simulation_id now ds x.delivery_id) how.drops drop how.dropped n in
        let ends = All-Memᴰ (λ x. is_drop x.state ≡ true) how.drops drop how.ends n in
        let pending = due_pending simulation_id now ds d drop.delivery_id u m named due in
        rw settled (elim (Bool-cases (elem d.id how.admit)) [
          | inr e ↦
              rw e
                (quiet d _ (drops now drop pending ends refl) refl (drop_settled drop.state ends))
          | inl e ↦
              let apart =
                All-Memᴰ (λ x. (d.id == x.delivery_id) ≡ false) how.drops drop (how.apart d.id e)
                  n in
              let bad : true ≡ false = sym named ∙ apart in cc
        ])
  ]

  decided-Moved : Moved (Idle settings) ds ds'
  decided-Moved = record {
    move = admitted_row how.drops how.admit now;
    moved = how.written;
    each = decided-Turn;
  }

module _ (settings : Settings) (locked : ℕ → Bool) where
  same-Moved : (ds : List Delivery) → Moved (Idle settings) ds ds
  same-Moved ds = Moved-refl (Idle settings) ds rests

  -- A run of the conductor takes each delivery along its moves.
  pub run_once-Moved :
      (readings : ℕ → Readings) (cursors : Cursors) (store : Store)
      → Distinct (ids_of store.deliveries)
      → Moved
          (Idle settings)
          store.deliveries
          (run_once settings locked readings (cursors, store)).1.deliveries
  run_once-Moved =
      run_once-R settings locked (Moved (Idle settings)) same-Moved
        (λ ds ds' ds''.
          Moved-trans (Idle settings) (Idle settings) (Idle settings) ds ds' ds'' both_turns)
        (λ simulation_id now store u. reclaim-Moved settings simulation_id now locked store u)
        (λ sim now gauges store u. elim (admit-cases settings sim now gauges store u) [
          | inl e ↦
              subst (Moved (Idle settings) store.deliveries) (sym e) (same-Moved store.deliveries)
          | inr how ↦ decided-Moved settings sim.id now store.deliveries _ u how
        ])
