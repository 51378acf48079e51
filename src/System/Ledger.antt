-- ===== src/System/Ledger.antt =====
-- The attempts that the table holds, and those that the deliveries count.
use webhook_recovery.Prelude.{
  ℕ, ◌+◌, ◌<◌, ◌≡◌, refl, inl, inr, false, List, [], ◌∷◌, ◌++◌, map, arith, ◌==◌, ==_iff,
  if◌then◌else◌, elem, count, All, All-mono, Distinct, Bool-cases,
}
use webhook_recovery.Core.Models.{Store, Delivery}
use webhook_recovery.Conductor.Service.Serials.{attempted}

-- The attempts of one delivery.
abbrev pub tries_of : ℕ → List ℕ → ℕ
tries_of id = count (λ i. i == id)

-- The table has as many attempts of a delivery as the delivery counts, and none of one that is yet
-- to come.
pub record IsLedger (store : Store) : Type 0 where
  pub agree : All (λ d. tries_of d.id (attempted store) ≡ d.attempt_count) store.deliveries
  pub known : All (λ i. i < store.next_delivery_id) (attempted store)

pub tries-append :
    (id : ℕ) (xs ys : List ℕ) → tries_of id (xs ++ ys) ≡ tries_of id xs + tries_of id ys
tries-append id [] ys = omega arith
tries-append id (x ∷ xs) ys = ground (arith, tries-append id xs ys)

no_tries : (id : ℕ) (xs : List ℕ) → elem id xs ≡ false → tries_of id xs ≡ 0
no_tries id [] h = refl
no_tries id (x ∷ xs) h = ground (arith, no_tries id xs)

pub tries-Distinct :
    (id : ℕ) (xs : List ℕ) → Distinct xs → tries_of id xs ≡ (if elem id xs then 1 else 0)
tries-Distinct id [] u = refl
tries-Distinct id (x ∷ xs) u = elim (Bool-cases (id == x)) [
  | inl e ↦
      let same = (==_iff id x).0 e in
      let none_left = no_tries id xs (rw same u.0) in ground (arith, e, none_left)
  | inr e ↦ ground (arith, e, tries-Distinct id xs u.1)
]

pub no_tries_yet : (id : ℕ) (xs : List ℕ) → All (λ i. i < id) xs → tries_of id xs ≡ 0
no_tries_yet id [] h = refl
no_tries_yet id (x ∷ xs) h = ground (arith, no_tries_yet id xs h.1, h.0)

pub All-map {ℓ κ} :
    {A : Type ℓ} {B : Type κ} (f : A → B) (P : B → Type 0) (xs : List A)
    → All (λ x. P (f x)) xs
    → All P (map f xs)
All-map f P [] h = tt
All-map f P (x ∷ xs) h = (h.0, All-map f P xs h.1)

-- Where rows keep their ids and their counts, and the attempts their deliveries.
pub kept-IsLedger :
    (store store' : Store) (move : Delivery → Delivery)
    → store'.deliveries ≡ map move store.deliveries
    → ((d : Delivery) → (move d).id ≡ d.id)
    → ((d : Delivery) → (move d).attempt_count ≡ d.attempt_count)
    → attempted store' ≡ attempted store
    → store'.next_delivery_id ≡ store.next_delivery_id
    → IsLedger store
    → IsLedger store'
kept-IsLedger store store' move moved ids counts same next l = record {
  agree =
      rw (moved, same)
        (All-map move (λ d. tries_of d.id (attempted store) ≡ d.attempt_count) store.deliveries
          (All-mono (λ d. tries_of d.id (attempted store) ≡ d.attempt_count)
            (λ d. tries_of (move d).id (attempted store) ≡ (move d).attempt_count)
            (λ d e. rw (ids d, counts d) e) store.deliveries l.agree));
  known = rw (same, next) l.known;
}
