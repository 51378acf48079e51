-- ===== src/Conductor/Selection/Marked.antt =====
-- The rows that `mark_ready` writes.
use mathlib.Core.List.{Memᴰ}
use webhook_recovery.Prelude.{
  ℕ, ◌≡◌, refl, subst, false, some, List, map, arith, if◌then◌else◌, elem, Memᴰ-map, map_key,
}
use webhook_recovery.Core.Enums.{ready}
use webhook_recovery.Core.Models.{Delivery}
use webhook_recovery.Conductor.Selection.{mark_ready}

abbrev pub ready_row : ℕ → Delivery → Delivery
ready_row now d = record d { state = ready; ready_at = some now }

pub mark_ready-map :
    (ids : List ℕ) (now : ℕ) (ds : List Delivery)
    → mark_ready ids now ds ≡ map (λ d. if elem d.id ids then ready_row now d else d) ds
unfolding mark_ready
mark_ready-map ids now ds = refl

pub mark_ready-ids :
    (ids : List ℕ) (now : ℕ) (ds : List Delivery)
    → map (λ d. d.id) (mark_ready ids now ds) ≡ map (λ d. d.id) ds
unfolding mark_ready
mark_ready-ids ids now ds = map_key (λ (d : Delivery). d.id) _ (λ d. ground arith) ds

-- A delivery that is not admitted stays as it was.
pub mark_ready-absent :
    (ids : List ℕ) (now : ℕ) (ds : List Delivery) (d : Delivery)
    → Memᴰ d ds
    → elem d.id ids ≡ false
    → Memᴰ d (mark_ready ids now ds)
unfolding mark_ready
mark_ready-absent ids now ds d m h =
    subst (λ x. Memᴰ x (mark_ready ids now ds)) (rw h refl)
      (Memᴰ-map
        (λ (x : Delivery).
          if elem x.id ids then record x { state = ready; ready_at = some now } else x)
        d ds m)
