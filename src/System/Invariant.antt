-- ===== src/System/Invariant.antt =====
-- What every step of the processes keeps.
use mathlib.Core.List.{Memᴰ}
use mathlib.Core.List.Memᴰ.{head, tail}
use webhook_recovery.Prelude.{
  ℕ, ◌≡◌, refl, ap, sym, subst, ◌∙◌, inl, inr, Bool, true, false, List, [], ◌∷◌, map, All, All-mono,
  All-mem, All-Memᴰ, Distinct,
}
use webhook_recovery.Core.Settings.{Settings}
use webhook_recovery.Core.Models.{Store, Delivery}
use webhook_recovery.Api.Ingest.Serials.{IsSerial}
use webhook_recovery.Worker.Claim.{Claimed}
use webhook_recovery.Worker.Complete.{held}
use webhook_recovery.System.Rows.{Moved}
use webhook_recovery.System.Turns.{Turn}
use webhook_recovery.System.Life.{IsWithin, Course-IsWithin}
use webhook_recovery.System.Works.{IsCurrent}
use webhook_recovery.System.Steps.{System}

-- Serial ids; every delivery within its attempts; and what each worker has in hand is one claim for
-- each of some deliveries, which says of those it still holds what the table says.
pub record Inv (settings : Settings) (s : System) : Type 0 where
  pub serial : IsSerial s.store
  pub within : All (IsWithin settings) s.store.deliveries
  pub distinct : (worker_id : ℕ) → Distinct (map (λ c. c.delivery_id) (s.batches worker_id))
  pub current : (worker_id : ℕ) → IsCurrent worker_id (s.batches worker_id) s.store.deliveries

-- The row that a row of an updated table comes from.
row_before {ℓ κ} :
    {A : Type ℓ} {B : Type κ} (f : A → B) (y : B) (xs : List A)
    → Memᴰ y (map f xs)
    → (x : A) × Memᴰ x xs × (y ≡ f x)
row_before f y [] m = elim m [ ]
row_before f y (x ∷ xs) (head e) = (x, head refl, e)
row_before f y (x ∷ xs) (tail m) = let (z, n, e) = row_before f y xs m in (z, tail n, e)

map_key_each {ℓ} :
    {A : Type ℓ} (key : A → ℕ) (f : A → A) (xs : List A)
    → All (λ x. key (f x) ≡ key x) xs
    → map key (map f xs) ≡ map key xs
map_key_each key f [] h = refl
map_key_each key f (x ∷ xs) h = rw (h.0, map_key_each key f xs h.1) refl

All-each {ℓ κ} :
    {A : Type ℓ} (P : A → Type κ) (xs : List A) → ((x : A) → Memᴰ x xs → P x) → All P xs
All-each P xs h = All-mono (λ x. Memᴰ x xs) P h xs (All-mem xs)

module _ (settings : Settings) (own : ℕ → Bool) (ds ds' : List Delivery)
    (turn : Moved (Turn settings own) ds ds') where
  pub Moved-ids : map (λ (d : Delivery). d.id) ds' ≡ map (λ (d : Delivery). d.id) ds
  Moved-ids =
      ap (map (λ (d : Delivery). d.id)) turn.moved
      ∙ map_key_each (λ (d : Delivery). d.id) turn.move ds
          (All-each (λ d. (turn.move d).id ≡ d.id) ds (λ d m. (turn.each d m).same))

  pub Moved-before :
      (e : Delivery) → Memᴰ e ds' → (d : Delivery) × Memᴰ d ds × Turn settings own d e
  Moved-before e m =
      let (d, n, same) = row_before turn.move e ds (subst (Memᴰ e) turn.moved m) in
      (d, n, subst (Turn settings own d) (sym same) (turn.each d n))

  pub Moved-IsWithin : All (IsWithin settings) ds → All (IsWithin settings) ds'
  Moved-IsWithin w = All-each (IsWithin settings) ds' (λ e m.
      let (d, n, t) = Moved-before e m in
      Course-IsWithin settings d e t.path (All-Memᴰ (IsWithin settings) ds d w n))

  pub Moved-IsCurrent :
      (worker_id : ℕ) (batch : List Claimed)
      → own worker_id ≡ false
      → IsCurrent worker_id batch ds
      → IsCurrent worker_id batch ds'
  Moved-IsCurrent worker_id batch not_own current c e m n named h =
      let (d, k, t) = Moved-before e n in
      elim (t.spares worker_id not_own) [
        | inl same ↦
            ap (λ (x : Delivery). x.attempt_count) same
            ∙ current c d m k (sym t.same ∙ named) (ap (held worker_id) (sym same) ∙ h)
        | inr not_held ↦ let bad : true ≡ false = sym h ∙ not_held in cc
      ]

  pub Moved-IsSerial :
      (store store' : Store)
      → store.deliveries ≡ ds
      → store'.deliveries ≡ ds'
      → store'.next_delivery_id ≡ store.next_delivery_id
      → IsSerial store
      → IsSerial store'
  Moved-IsSerial store store' e e' next s =
      let ids : map (λ (d : Delivery). d.id) store'.deliveries
          ≡ map (λ (d : Delivery). d.id) store.deliveries =
        ap (map (λ (d : Delivery). d.id)) e'
        ∙ Moved-ids
        ∙ ap (map (λ (d : Delivery). d.id)) (sym e) in
      record { distinct = subst Distinct (sym ids) s.distinct; below = rw (ids, next) s.below }
