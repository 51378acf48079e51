-- ===== src/Conductor/Policy/Written.antt =====
-- The rows that `apply_drops` writes.
use mathlib.Core.List.{Memᴰ}
use webhook_recovery.Prelude.{
  true, ◌⊎◌, inl, inr, All-mem, All-Memᴰ, ℕ, ◌≡◌, refl, subst, Bool, false, not, List, [], ◌∷◌, map,
  ◌==◌, All, All-append, All-filter_of, Memᴰ-map, map_key, update_row, update_row_key,
  update_row_last,
}
use webhook_recovery.Core.Models.{Delivery}
use webhook_recovery.Conductor.Policy.{Drop, by_state, is_expired_drop, settle_drop, apply_drops}

abbrev row_of : Drop → Delivery → Bool
row_of drop d = d.id == drop.delivery_id

pub apply_drops-ids :
    (drops : List Drop) (now : ℕ) (ds : List Delivery)
    → map (λ d. d.id) (apply_drops drops now ds) ≡ map (λ d. d.id) ds
unfolding apply_drops
apply_drops-ids drops now ds =
    map_key (λ (d : Delivery). d.id) _
      (update_row_key (λ (d : Delivery). d.id) row_of (settle_drop now) (λ p x. refl)
        (by_state drops))
      ds

unnamed_row :
    (drops : List Drop) (now : ℕ) (d : Delivery)
    → All (λ drop. row_of drop d ≡ false) drops
    → update_row row_of (settle_drop now) drops d ≡ d
unnamed_row [] now d h = refl
unnamed_row (drop ∷ drops) now d h = rw h.0 (unnamed_row drops now d h.1)

-- A delivery that no drop names stays as it was.
pub apply_drops-absent :
    (drops : List Drop) (now : ℕ) (ds : List Delivery) (d : Delivery)
    → Memᴰ d ds
    → All (λ drop. (d.id == drop.delivery_id) ≡ false) drops
    → Memᴰ d (apply_drops drops now ds)
unfolding apply_drops
apply_drops-absent drops now ds d m h =
    subst (λ x. Memᴰ x (apply_drops drops now ds))
      (unnamed_row (by_state drops) now d (
        All-append (λ drop. row_of drop d ≡ false) _ _
          (All-filter_of (λ drop. row_of drop d ≡ false) is_expired_drop drops h)
          (All-filter_of (λ drop. row_of drop d ≡ false) (λ drop. not (is_expired_drop drop)) drops
            h)))
      (Memᴰ-map (update_row row_of (settle_drop now) (by_state drops)) d ds m)

-- Whatever drops name a row, it is left as it was or settled by one of them: a later drop overwrites
-- all that an earlier one wrote.
abbrev pub SettledBy : List Drop → ℕ → Delivery → Delivery → Type 0
SettledBy drops now d d' =
    (d' ≡ d)
    ⊎ ((drop : Drop) × Memᴰ drop drops
        × ((d.id == drop.delivery_id) ≡ true)
        × (d' ≡ settle_drop now drop d))

pub dropped_row : List Drop → ℕ → Delivery → Delivery
dropped_row drops now d = update_row row_of (settle_drop now) (by_state drops) d

pub apply_drops-map :
    (drops : List Drop) (now : ℕ) (ds : List Delivery)
    → apply_drops drops now ds ≡ map (dropped_row drops now) ds
unfolding apply_drops dropped_row
apply_drops-map drops now ds = refl

Memᴰ-by_state : (drop : Drop) (drops : List Drop) → Memᴰ drop (by_state drops) → Memᴰ drop drops
Memᴰ-by_state drop drops m =
    All-Memᴰ (λ x. Memᴰ x drops) (by_state drops) drop
      (All-append (λ x. Memᴰ x drops) _ _
        (All-filter_of (λ x. Memᴰ x drops) is_expired_drop drops (All-mem drops))
        (All-filter_of (λ x. Memᴰ x drops) (λ x. not (is_expired_drop x)) drops (All-mem drops)))
      m

pub dropped_row-SettledBy :
    (drops : List Drop) (now : ℕ) (d : Delivery) → SettledBy drops now d (dropped_row drops now d)
unfolding dropped_row
dropped_row-SettledBy drops now d =
    elim (update_row_last row_of (settle_drop now) (λ p q x. refl) (λ p q x. refl) (by_state drops)
      d) [
        | inl e ↦ inl e
        | inr (drop, m, named, e) ↦ inr (drop, Memᴰ-by_state drop drops m, named, e)
      ]
