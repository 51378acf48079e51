-- ===== src/System/Lives.antt =====
-- The life of a delivery over the steps of the system.
use mathlib.Core.List.{Memᴰ}
use mathlib.Core.List.Memᴰ.{head, tail}
use webhook_recovery.Prelude.{
  ℕ, ◌+◌, ◌≤◌, ◌<◌, ◌≡◌, refl, sym, subst, ◌∙◌, Bool, true, List, [], ◌∷◌, ◌++◌, All-Memᴰ, Memᴰ-map,
  ◌==◌,
}
use webhook_recovery.Core.Enums.{is_terminal}
use webhook_recovery.Core.Settings.{Settings}
use webhook_recovery.Core.Models.{Delivery}
use webhook_recovery.Api.Ingest.Fresh.{ingest_events-IsFresh}
use webhook_recovery.System.Rows.{Course, stays, join, Moved}
use webhook_recovery.System.Turns.{Turn, nobody}
use webhook_recovery.System.Life.{
  IsWithin, moves_left, path_length, path_length_bounded, Course-final,
}
use webhook_recovery.System.Works.{claim_batch-Moved, complete_batch-Moved}
use webhook_recovery.System.Conducts.{run_once-Moved}
use webhook_recovery.System.Steps.{
  System, Step, ingests, conducts, claims, completes, loses, edits, Reach, start, later,
}
use webhook_recovery.System.Invariant.{Inv}
use webhook_recovery.System.Reach.{Step-Inv, batch-Distinct, batch-IsCurrent}

-- A delivery's row in a later table, and the moves that led to it.
pub record Later (settings : Settings) (ds : List Delivery) (d : Delivery) : Type 0 where
  pub row : Delivery
  pub listed : Memᴰ row ds
  pub same : row.id ≡ d.id
  pub path : Course settings d row

Memᴰ-append_left {ℓ} : {A : Type ℓ} (a : A) (xs ys : List A) → Memᴰ a xs → Memᴰ a (xs ++ ys)
Memᴰ-append_left a [] ys m = elim m [ ]
Memᴰ-append_left a (x ∷ xs) ys (head e) = head e
Memᴰ-append_left a (x ∷ xs) ys (tail m) = tail (Memᴰ-append_left a xs ys m)

module _ (settings : Settings) where
  unmoved : (d : Delivery) (ds : List Delivery) → Memᴰ d ds → Later settings ds d
  unmoved d ds m = record { row = d; listed = m; same = refl; path = stays }

  Moved-Later :
      (own : ℕ → Bool) (ds ds' : List Delivery) (d : Delivery)
      → Moved (Turn settings own) ds ds'
      → Memᴰ d ds
      → Later settings ds' d
  Moved-Later own ds ds' d turn m = record {
    row = turn.move d;
    listed = subst (Memᴰ (turn.move d)) (sym turn.moved) (Memᴰ-map turn.move d ds m);
    same = (turn.each d m).same;
    path = (turn.each d m).path;
  }

  Step-Later :
      (s t : System) (d : Delivery)
      → Step settings s t
      → Inv settings s
      → Memᴰ d s.store.deliveries
      → Later settings t.store.deliveries d
  Step-Later s t d (ingests sim specs at_wall) inv m =
      let (new, fresh, written) = ingest_events-IsFresh sim specs at_wall s.store in
      unmoved d _ (subst (Memᴰ d) (sym written) (Memᴰ-append_left d s.store.deliveries new m))
  Step-Later s t d (conducts locked readings cursors) inv m =
      Moved-Later nobody s.store.deliveries _ d
        (run_once-Moved settings locked readings cursors s.store inv.serial.distinct) m
  Step-Later s t d (claims simulation_id worker_id now limit locked idle) inv m =
      Moved-Later (λ v. worker_id == v) s.store.deliveries _ d
        (claim_batch-Moved settings simulation_id worker_id now limit locked s.store
          inv.serial.distinct)
        m
  Step-Later s t d (completes worker_id now completions batch) inv m =
      Moved-Later nobody s.store.deliveries _ d
        (complete_batch-Moved settings worker_id now completions s.store
          (batch-Distinct settings s inv worker_id completions batch)
          (batch-IsCurrent settings s inv worker_id completions batch))
        m
  Step-Later s t d (loses worker_id) inv m = unmoved d _ m
  Step-Later s t d (edits store' e _ next) inv m = unmoved d _ (subst (Memᴰ d) (sym e) m)

  module _ (some_attempt : 0 < settings.max_attempts) (s : System) (inv : Inv settings s)
      (d : Delivery) (m : Memᴰ d s.store.deliveries) where
    Reach-Inv-Later :
        (t : System) → Reach settings s t → Inv settings t × Later settings t.store.deliveries d
    Reach-Inv-Later t start = (inv, unmoved d s.store.deliveries m)
    Reach-Inv-Later u (later {t} r step) =
        let (inv_t, l) = Reach-Inv-Later t r in
        let k = Step-Later t u l.row step inv_t l.listed in
        (
          Step-Inv settings some_attempt t u step inv_t,
          record {
            row = k.row;
            listed = k.listed;
            same = k.same ∙ l.same;
            path = join l.path k.path;
          },
        )

    -- The life of a delivery is bounded. Where an attempt is allowed, and whatever steps follow a
    -- state with the invariant, the later table has a row with the delivery's id that moves of its
    -- state machine make of the delivery's row, and these moves, retries and lost leases included,
    -- are at most three for each attempt that it has left and those of its state.
    pub Reach-path_length :
        (t : System)
        → Reach settings s t
        → (e : Delivery) × Memᴰ e t.store.deliveries
          × (e.id ≡ d.id)
          × (p : Course settings d e) × (path_length p + moves_left settings e
              ≤ moves_left settings d)
    Reach-path_length t r =
        let l = (Reach-Inv-Later t r).1 in
        (
          l.row,
          l.listed,
          l.same,
          l.path,
          path_length_bounded settings d l.row l.path
              (All-Memᴰ (IsWithin settings) s.store.deliveries d inv.within m),
        )

    -- An outcome is final. Where an attempt is allowed, a delivery that is delivered, failed,
    -- expired or superseded in a state with the invariant has the same row in every state that
    -- steps lead to from there: no late completion, lease sweep or conductor's pass rewrites it.
    pub Reach-final :
        (t : System) → Reach settings s t → is_terminal d.state ≡ true → Memᴰ d t.store.deliveries
    Reach-final t r h =
        let l = (Reach-Inv-Later t r).1 in
        subst (λ x. Memᴰ x t.store.deliveries) (Course-final settings d l.row l.path h) l.listed
