-- ===== src/System/Rows.antt =====
-- The life of a delivery: the moves that the processes make with its row.
use mathlib.Core.List.{Memᴰ}
use webhook_recovery.Prelude.{
  ℕ, ◌≡◌, refl, ap, sym, ◌∙◌, subst, true, false, List, [], ◌∷◌, map, map-map, Memᴰ-map,
}
use webhook_recovery.Core.Enums.{is_pending, is_ready, is_in_flight}
use webhook_recovery.Core.Settings.{Settings}
use webhook_recovery.Core.Models.{Delivery, Reason}
use webhook_recovery.Conductor.Policy.{Drop, settle_drop}
use webhook_recovery.Conductor.Policy.Dropped.{is_drop}
use webhook_recovery.Conductor.Selection.Marked.{ready_row}
use webhook_recovery.Conductor.Reaper.{requeue_row, exhaust_row, is_exhausted}
use webhook_recovery.Worker.Claim.{expire_row, lease_row}
use webhook_recovery.Worker.Complete.{Completion, held, deliver_row, fail_row, retry_row}

-- One move. The conductor admits, drops, requeues and exhausts; a worker does the rest.
pub data Edge (settings : Settings) (d d' : Delivery) : Type 0 where
  admits : (now : ℕ) → is_pending d.state ≡ true → d' ≡ ready_row now d → Edge settings d d'
  drops :
      (now : ℕ) (drop : Drop)
      → is_pending d.state ≡ true
      → is_drop drop.state ≡ true
      → d' ≡ settle_drop now drop d
      → Edge settings d d'
  requeues :
      (now : ℕ)
      → is_in_flight d.state ≡ true
      → is_exhausted settings d ≡ false
      → d' ≡ requeue_row settings now d d
      → Edge settings d d'
  exhausts :
      (now : ℕ)
      → is_in_flight d.state ≡ true
      → is_exhausted settings d ≡ true
      → d' ≡ exhaust_row settings now d d
      → Edge settings d d'
  leases :
      (worker_id at : ℕ)
      → is_ready d.state ≡ true
      → d' ≡ lease_row worker_id at d
      → Edge settings d d'
  expires :
      (now : ℕ) (gone : ℕ × Reason)
      → is_ready d.state ≡ true
      → d' ≡ expire_row now gone d
      → Edge settings d d'
  delivers :
      (worker_id now : ℕ) → held worker_id d ≡ true → d' ≡ deliver_row now d → Edge settings d d'
  fails :
      (worker_id now : ℕ) (c : Completion)
      → held worker_id d ≡ true
      → is_exhausted settings d ≡ true
      → d' ≡ fail_row now c d
      → Edge settings d d'
  retries :
      (worker_id now : ℕ) (c : Completion)
      → held worker_id d ≡ true
      → is_exhausted settings d ≡ false
      → d' ≡ retry_row settings now c d
      → Edge settings d d'

pub data Course (settings : Settings) (d : Delivery) : Delivery → Type 0 where
  stays : Course settings d d
  moves : {e f : Delivery} → Course settings d e → Edge settings e f → Course settings d f

pub join :
    {settings : Settings} {d e f : Delivery}
    → Course settings d e
    → Course settings e f
    → Course settings d f
join p stays = p
join p (moves q e) = moves (join p q) e

pub one_move : {settings : Settings} {d e : Delivery} → Edge settings d e → Course settings d e
one_move e = moves stays e

-- A table after an operation, row by row.
pub record Moved (R : Delivery → Delivery → Type 0) (ds ds' : List Delivery) : Type 0 where
  pub move : Delivery → Delivery
  pub moved : ds' ≡ map move ds
  pub each : (d : Delivery) → Memᴰ d ds → R d (move d)

map_same : (ds : List Delivery) → ds ≡ map (λ d. d) ds
map_same [] = refl
map_same (d ∷ ds) = ap (◌∷◌ d) (map_same ds)

pub Moved-refl :
    (R : Delivery → Delivery → Type 0) (ds : List Delivery)
    → ((d : Delivery) → R d d)
    → Moved R ds ds
Moved-refl R ds r = record { move = λ d. d; moved = map_same ds; each = λ d m. r d }

pub Moved-trans :
    (R S T : Delivery → Delivery → Type 0) (ds ds' ds'' : List Delivery)
    → ((d e f : Delivery) → R d e → S e f → T d f)
    → Moved R ds ds'
    → Moved S ds' ds''
    → Moved T ds ds''
Moved-trans R S T ds ds' ds'' t p q = record {
  move = λ d. q.move (p.move d);
  moved = q.moved ∙ ap (map q.move) p.moved ∙ map-map q.move p.move ds;
  each = λ d m.
      t d (p.move d) (q.move (p.move d)) (p.each d m)
        (q.each (p.move d) (subst (Memᴰ (p.move d)) (sym p.moved) (Memᴰ-map p.move d ds m)));
}
