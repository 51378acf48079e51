-- ===== src/Prelude/Rows.antt =====
-- Facts about all rows of a query, and about rows with distinct ids.
use mathlib.Core.List.{Memᴰ}
use mathlib.Core.List.Memᴰ.{head, tail}
use Prim.Native.Nat.{ℕ, zero, suc, ◌+◌, ◌≤◌}
use mathlib.Core.Path.{◌≡◌, refl, subst, sym}
use mathlib.Core.Logic.{inl, inr}
use mathlib.Core.Bool.{Bool, true, false, ◌&&◌, ◌||◌}
use mathlib.Core.List.{List, [], ◌∷◌, map}
use native.Mathlib.Omega.{arith}
use webhook_recovery.Prelude.Tests.{leb, ◌==◌, if◌then◌else◌, Bool-cases}
use webhook_recovery.Prelude.Lists.{
  All, All-mono, filter, take, insert_by, order_by, count, elem, length, Distinct,
}

module _ {ℓ κ} {A : Type ℓ} (P : A → Type κ) where
  pub All-Memᴰ : (xs : List A) (x : A) → All P xs → Memᴰ x xs → P x
  All-Memᴰ (y ∷ xs) x h (head e) = subst P (sym e) h.0
  All-Memᴰ (y ∷ xs) x h (tail m) = All-Memᴰ xs x h.1 m
  All-Memᴰ [] x h m = elim m [ ]

  pub All-take : (n : ℕ) (xs : List A) → All P xs → All P (take n xs)
  All-take zero xs h = tt
  All-take (suc n) [] h = tt
  All-take (suc n) (x ∷ xs) h = (h.0, All-take n xs h.1)

  All-insert_by : (key : A → ℕ) (x : A) (xs : List A) → P x → All P xs → All P (insert_by key x xs)
  All-insert_by key x [] p h = (p, tt)
  All-insert_by key x (y ∷ ys) p h = elim (Bool-cases (leb (key x) (key y))) [
    | inl e ↦ rw e (p, h)
    | inr e ↦ rw e (h.0, All-insert_by key x ys p h.1)
  ]

  pub All-order_by : (key : A → ℕ) (xs : List A) → All P xs → All P (order_by key xs)
  All-order_by key [] h = tt
  All-order_by key (x ∷ xs) h = All-insert_by key x (order_by key xs) h.0 (All-order_by key xs h.1)

  pub All-filter :
      (p : A → Bool) (xs : List A) → All P xs → All (λ x. P x × (p x ≡ true)) (filter p xs)
  All-filter p [] h = tt
  All-filter p (x ∷ xs) h = elim (Bool-cases (p x)) [
    | inl e ↦ rw e ((h.0, e), All-filter p xs h.1)
    | inr e ↦ rw e (All-filter p xs h.1)
  ]

  pub All-filter_of : (p : A → Bool) (xs : List A) → All P xs → All P (filter p xs)
  All-filter_of p [] h = tt
  All-filter_of p (x ∷ xs) h = elim (Bool-cases (p x)) [
    | inl e ↦ rw e (h.0, All-filter_of p xs h.1)
    | inr e ↦ rw e (All-filter_of p xs h.1)
  ]

  pub All-map {μ} :
      {B : Type μ} (f : B → A) (xs : List B) → All (λ x. P (f x)) xs → All P (map f xs)
  All-map f [] h = tt
  All-map f (x ∷ xs) h = (h.0, All-map f xs h.1)

  pub All-of : ((x : A) → P x) → (xs : List A) → All P xs
  All-of f [] = tt
  All-of f (x ∷ xs) = (f x, All-of f xs)

eq_one : (b : Bool) → (if b then 1 else 0) ≤ 1
eq_one b = ground arith

module _ {ℓ} {A : Type ℓ} where
  -- Each row of a list is one of its rows.
  pub All-mem : (xs : List A) → All (λ x. Memᴰ x xs) xs
  All-mem [] = tt
  All-mem (x ∷ xs) =
      (head refl, All-mono (λ y. Memᴰ y xs) (λ y. Memᴰ y (x ∷ xs)) (λ y m. tail m) xs (All-mem xs))

  pub count_mono :
      (p q : A → Bool)
      → ((x : A) → p x ≡ true → q x ≡ true)
      → (xs : List A) → count p xs ≤ count q xs
  count_mono p q f [] = omega arith
  count_mono p q f (x ∷ xs) = ground (arith, f x, count_mono p q f xs)

  pub count_or :
      (p q r : A → Bool)
      → ((x : A) → p x ≡ true → (q x || r x) ≡ true)
      → (xs : List A) → count p xs ≤ count q xs + count r xs
  count_or p q r f [] = omega arith
  count_or p q r f (x ∷ xs) = ground (arith, f x, count_or p q r f xs)

  pub count_never : (p : A → Bool) → ((x : A) → p x ≡ false) → (xs : List A) → count p xs ≡ 0
  count_never p f [] = refl
  count_never p f (x ∷ xs) = ground (arith, f x, count_never p f xs)

  module _ (id : A → ℕ) where
    pub elem_of_Memᴰ : (x : A) (xs : List A) → Memᴰ x xs → elem (id x) (map id xs) ≡ true
    elem_of_Memᴰ x (y ∷ xs) (head e) = rw e (ground arith)
    elem_of_Memᴰ x (y ∷ xs) (tail m) = ground (arith, elem_of_Memᴰ x xs m)
    elem_of_Memᴰ x [] m = elim m [ ]

    count_absent :
        (p : A → Bool) (i : ℕ) (xs : List A)
        → elem i (map id xs) ≡ false
        → count (λ x. p x && id x == i) xs ≡ 0
    count_absent p i [] h = refl
    count_absent p i (x ∷ xs) h = ground (arith, count_absent p i xs)

    -- Among rows with distinct ids, only the row itself has its id.
    pub count_id-le :
        (p : A → Bool) (x : A) (xs : List A)
        → Distinct (map id xs)
        → Memᴰ x xs
        → count (λ y. p y && id y == id x) xs ≤ (if p x then 1 else 0)
    count_id-le p x (y ∷ xs) d (head e) =
        subst (λ z. count (λ w. p w && id w == id z) (y ∷ xs) ≤ (if p z then 1 else 0)) (sym e)
          (ground (arith, count_absent p (id y) xs d.0))
    count_id-le p x (y ∷ xs) d (tail m) =
        ground (arith, elem_of_Memᴰ x xs m, count_id-le p x xs d.1 m)
    count_id-le p x [] d m = elim m [ ]

    count_absent_id :
        (i : ℕ) (xs : List A) → elem i (map id xs) ≡ false → count (λ x. id x == i) xs ≡ 0
    count_absent_id i [] h = refl
    count_absent_id i (x ∷ xs) h = ground (arith, count_absent_id i xs)

    count_id-le_one : (i : ℕ) (xs : List A) → Distinct (map id xs) → count (λ x. id x == i) xs ≤ 1
    count_id-le_one i [] d = omega arith
    count_id-le_one i (x ∷ xs) d = elim (Bool-cases (id x == i)) [
      | inl e ↦
          let eq : id x ≡ i = ground arith in
          omega (
            arith,
            count_absent_id i xs (subst (λ j. elem j (map id xs) ≡ false) eq d.0),
            eq_one (id x == i),
          )
      | inr e ↦ rw e (omega (arith, count_id-le_one i xs d.1))
    ]

    -- Of rows with distinct ids, a list of ids picks no more than it is long.
    pub count-elem-le_length :
        (ids : List ℕ) (xs : List A)
        → Distinct (map id xs)
        → count (λ x. elem (id x) ids) xs ≤ length ids
    count-elem-le_length [] xs d = omega (arith, count_never (λ x. false) (λ x. refl) xs)
    count-elem-le_length (i ∷ ids) xs d = omega (
      arith,
      count_or (λ x. elem (id x) (i ∷ ids)) (λ x. id x == i) (λ x. elem (id x) ids) (λ x h. h) xs,
      count_id-le_one i xs d,
      count-elem-le_length ids xs d,
    )
