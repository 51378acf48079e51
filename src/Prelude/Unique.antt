-- ===== src/Prelude/Unique.antt =====
-- Queries keep the ids of their rows distinct.
use Prim.Native.Nat.{ℕ, zero, suc}
use mathlib.Core.List.Memᴰ.{head, tail}
use mathlib.Core.Path.{◌≡◌, refl, sym, ap, ap₂, subst, ◌∙◌}
use mathlib.Core.Logic.{◌⊎◌, inl, inr}
use mathlib.Core.Bool.{Bool, false, true, ◌||◌}
use mathlib.Core.List.{List, Memᴰ, [], ◌∷◌, map}
use native.Mathlib.Omega.{arith}
use webhook_recovery.Prelude.Tests.{◌==◌, ==_iff, leb, Bool-cases}
use webhook_recovery.Prelude.Lists.{
  All, filter, elem, Distinct, take, insert_by, order_by, update_row,
}
use webhook_recovery.Prelude.Rows.{elem_of_Memᴰ, All-Memᴰ}
use webhook_recovery.Prelude.Tables.{elem-filter_absent}

module _ {ℓ} {A : Type ℓ} (id : A → ℕ) where
  pub filter-Distinct :
      (p : A → Bool) (xs : List A) → Distinct (map id xs) → Distinct (map id (filter p xs))
  filter-Distinct p [] d = tt
  filter-Distinct p (x ∷ xs) d = elim (Bool-cases (p x)) [
    | inl e ↦ rw e (elem-filter_absent id p (id x) xs d.0, filter-Distinct p xs d.1)
    | inr e ↦ rw e (filter-Distinct p xs d.1)
  ]

  elem-take_absent :
      (n : ℕ) (i : ℕ) (xs : List A)
      → elem i (map id xs) ≡ false
      → elem i (map id (take n xs)) ≡ false
  elem-take_absent zero i xs h = refl
  elem-take_absent (suc n) i [] h = refl
  elem-take_absent (suc n) i (x ∷ xs) h = ground (arith, elem-take_absent n i xs)

  pub take-Distinct : (n : ℕ) (xs : List A) → Distinct (map id xs) → Distinct (map id (take n xs))
  take-Distinct zero xs d = tt
  take-Distinct (suc n) [] d = tt
  take-Distinct (suc n) (x ∷ xs) d = (elem-take_absent n (id x) xs d.0, take-Distinct n xs d.1)

  elem-insert_by :
      (key : A → ℕ) (i : ℕ) (x : A) (xs : List A)
      → elem i (map id (insert_by key x xs)) ≡ ((i == id x) || elem i (map id xs))
  elem-insert_by key i x [] = refl
  elem-insert_by key i x (y ∷ ys) = ground (arith, elem-insert_by key i x ys)

  insert_by-Distinct :
      (key : A → ℕ) (x : A) (xs : List A)
      → elem (id x) (map id xs) ≡ false
      → Distinct (map id xs)
      → Distinct (map id (insert_by key x xs))
  insert_by-Distinct key x [] h d = (refl, tt)
  insert_by-Distinct key x (y ∷ ys) h d = elim (Bool-cases (leb (key x) (key y))) [
    | inl e ↦ rw e (h, d)
    | inr e ↦ rw e (
      ground (arith, elem-insert_by key (id y) x ys, d.0),
      insert_by-Distinct key x ys (ground arith) d.1,
    )
  ]

  elem-order_by :
      (key : A → ℕ) (i : ℕ) (xs : List A) → elem i (map id (order_by key xs)) ≡ elem i (map id xs)
  elem-order_by key i [] = refl
  elem-order_by key i (x ∷ xs) =
      ground (arith, elem-insert_by key i x (order_by key xs), elem-order_by key i xs)

  pub order_by-Distinct :
      (key : A → ℕ) (xs : List A) → Distinct (map id xs) → Distinct (map id (order_by key xs))
  order_by-Distinct key [] d = tt
  order_by-Distinct key (x ∷ xs) d =
      insert_by-Distinct key x (order_by key xs) (ground (arith, elem-order_by key (id x) xs, d.0))
        (order_by-Distinct key xs d.1)

-- With distinct ids, two rows of a table with one id are one row.
pub id_unique {ℓ} :
    {A : Type ℓ} (id : A → ℕ) (xs : List A) (x y : A)
    → Distinct (map id xs)
    → Memᴰ x xs
    → Memᴰ y xs
    → id x ≡ id y
    → x ≡ y
id_unique id (z ∷ xs) x y d (head e) (head f) same = e ∙ sym f
id_unique id (z ∷ xs) x y d (head e) (tail n) same =
    let bad : false ≡ true =
      sym d.0 ∙ ap (λ i. elem i (map id xs)) (ap id (sym e) ∙ same) ∙ elem_of_Memᴰ id y xs n in
    cc
id_unique id (z ∷ xs) x y d (tail m) (head f) same =
    let bad : false ≡ true =
      sym d.0 ∙ ap (λ i. elem i (map id xs)) (ap id (sym f) ∙ sym same) ∙ elem_of_Memᴰ id x xs m in
    cc
id_unique id (z ∷ xs) x y d (tail m) (tail n) same = id_unique id xs x y d.1 m n same
id_unique id [] x y d m n same = elim m [ ]

-- What an update leaves of every row, it leaves of the table.
pub map_key {ℓ κ} :
    {A : Type ℓ} {K : Type κ} (key : A → K) (f : A → A)
    → ((x : A) → key (f x) ≡ key x)
    → (xs : List A) → map key (map f xs) ≡ map key xs
map_key key f h [] = refl
map_key key f h (x ∷ xs) = ap₂ ◌∷◌ (h x) (map_key key f h xs)

pub update_row_key {ℓ κ μ} :
    {A : Type ℓ} {K : Type κ} {P : Type μ} (key : A → K) (test : P → A → Bool) (f : P → A → A)
    → ((p : P) (x : A) → key (f p x) ≡ key x)
    → (ps : List P) (x : A) → key (update_row test f ps x) ≡ key x
update_row_key key test f h [] x = refl
update_row_key key test f h (p ∷ ps) x = elim (Bool-cases (test p x)) [
  | inl e ↦ rw e (update_row_key key test f h ps (f p x) ∙ h p x)
  | inr e ↦ rw e (update_row_key key test f h ps x)
]

-- The row behind an id of a list of rows.
pub row_of_elem {ℓ} :
    {A : Type ℓ} (id : A → ℕ) (i : ℕ) (xs : List A)
    → elem i (map id xs) ≡ true
    → (x : A) × Memᴰ x xs × (id x ≡ i)
row_of_elem id i [] h = cc
row_of_elem id i (x ∷ xs) h = elim (Bool-cases (i == id x)) [
  | inl e ↦ (x, head refl, sym ((==_iff i (id x)).0 e))
  | inr e ↦ let (y, m, f) = row_of_elem id i xs (ground arith) in (y, tail m, f)
]

-- A row of a table is among the rows of a query if its id is among theirs.
pub row_of_query {ℓ} :
    {A : Type ℓ} (id : A → ℕ) (xs ys : List A) (x : A)
    → Distinct (map id xs)
    → All (λ y. Memᴰ y xs) ys
    → Memᴰ x xs
    → elem (id x) (map id ys) ≡ true
    → Memᴰ x ys
row_of_query id xs ys x d a m h =
    let (y, n, e) = row_of_elem id (id x) ys h in
    subst (λ z. Memᴰ z ys) (id_unique id xs y x d (All-Memᴰ (λ z. Memᴰ z xs) ys y a n) m e) n

-- Where each write overwrites what another one wrote, the last that names a row is the one it keeps.
pub update_row_last {ℓ μ} :
    {A : Type ℓ} {P : Type μ} (test : P → A → Bool) (f : P → A → A)
    → ((p q : P) (x : A) → test q (f p x) ≡ test q x)
    → ((p q : P) (x : A) → f q (f p x) ≡ f q x)
    → (ps : List P) (x : A)
    → (update_row test f ps x ≡ x)
      ⊎ ((p : P) × Memᴰ p ps × (test p x ≡ true) × (update_row test f ps x ≡ f p x))
update_row_last test f h k [] x = inl refl
update_row_last test f h k (p ∷ ps) x = elim (Bool-cases (test p x)) [
  | inl e ↦ rw e (elim (update_row_last test f h k ps (f p x)) [
    | inl g ↦ inr (p, head refl, e, g)
    | inr (q, m, named, g) ↦ inr (q, tail m, sym (h p q x) ∙ named, g ∙ k p q x)
  ])
  | inr e ↦ rw e (elim (update_row_last test f h k ps x) [
    | inl g ↦ inl g
    | inr (q, m, named, g) ↦ inr (q, tail m, named, g)
  ])
]
