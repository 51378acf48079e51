-- ===== src/Prelude/Tables.antt =====
-- `UPDATE`s by id over a table with distinct ids, row by row.
use mathlib.Core.List.{Memᴰ}
use mathlib.Core.List.Memᴰ.{head, tail}
use Prim.Native.Nat.{ℕ}
use mathlib.Core.Path.{◌≡◌, refl, subst, sym, ap, ap₂}
use mathlib.Core.Bool.{Bool, false, ◌&&◌}
use mathlib.Core.List.{List, [], ◌∷◌, map}
use native.Mathlib.Omega.{arith}
use webhook_recovery.Prelude.Tests.{◌==◌, if◌then◌else◌}
use webhook_recovery.Prelude.Lists.{All, All-mono, filter, elem, Distinct, update_row}
use webhook_recovery.Prelude.Rows.{All-mem, elem_of_Memᴰ}

module _ {ℓ} {A : Type ℓ} where
  pub filter-filter :
      (p q : A → Bool) (xs : List A) → filter q (filter p xs) ≡ filter (λ x. p x && q x) xs
  filter-filter p q [] = refl
  filter-filter p q (x ∷ xs) = ground (arith, filter-filter p q xs)

module _ {ℓ κ} {A : Type ℓ} {B : Type κ} where
  pub map_congr : (f g : A → B) (xs : List A) → All (λ x. f x ≡ g x) xs → map f xs ≡ map g xs
  map_congr f g [] h = refl
  map_congr f g (x ∷ xs) h = ap₂ ◌∷◌ h.0 (map_congr f g xs h.1)

  -- Two maps agree where their functions agree on the rows of the table.
  pub map_congr_mem :
      (f g : A → B) (xs : List A) → ((x : A) → Memᴰ x xs → f x ≡ g x) → map f xs ≡ map g xs
  map_congr_mem f g xs h =
      map_congr f g xs (All-mono (λ x. Memᴰ x xs) (λ x. f x ≡ g x) h xs (All-mem xs))

  pub Memᴰ-map : (f : A → B) (x : A) (xs : List A) → Memᴰ x xs → Memᴰ (f x) (map f xs)
  Memᴰ-map f x (y ∷ xs) (head e) = head (ap f e)
  Memᴰ-map f x (y ∷ xs) (tail m) = tail (Memᴰ-map f x xs m)
  Memᴰ-map f x [] m = elim m [ ]

module _ {ℓ κ μ} {A : Type ℓ} {B : Type κ} {C : Type μ} where
  pub map-map : (g : B → C) (f : A → B) (xs : List A) → map g (map f xs) ≡ map (λ x. g (f x)) xs
  map-map g f [] = refl
  map-map g f (x ∷ xs) = ap (◌∷◌ (g (f x))) (map-map g f xs)

module _ {ℓ} {A : Type ℓ} (id : A → ℕ) (f : A → A → A) (keeps : (r d : A) → id (f r d) ≡ id d) where
  abbrev same : A → A → Bool
  same r d = id d == id r

  update_row_absent :
      (p : A → Bool) (xs : List A) (d : A)
      → elem (id d) (map id xs) ≡ false
      → update_row same f (filter p xs) d ≡ d
  update_row_absent p [] d h = refl
  update_row_absent p (x ∷ xs) d h = ground (arith, update_row_absent p xs d)

  -- An `UPDATE` by the id of each row of a query over the table changes a row exactly if the query
  -- finds it, and once.
  pub update_row_own :
      (p : A → Bool) (xs : List A) (d d' : A)
      → Distinct (map id xs)
      → Memᴰ d xs
      → id d' ≡ id d
      → update_row same f (filter p xs) d' ≡ (if p d then f d d' else d')
  update_row_own p [] d d' u m e = elim m [ ]
  update_row_own p (x ∷ xs) d d' u (head eq) e =
      subst
        (λ z.
          id d' ≡ id z → update_row same f (filter p (x ∷ xs)) d' ≡ (if p z then f z d' else d'))
        (sym eq)
        (λ e'.
          ground
            (arith, keeps x d', update_row_absent p xs d', update_row_absent p xs (f x d'), u.0))
        e
  update_row_own p (x ∷ xs) d d' u (tail m) e =
      ground (arith, elem_of_Memᴰ id d xs m, update_row_own p xs d d' u.1 m e, u.0)

module _ {ℓ} {A : Type ℓ} (id : A → ℕ) where
  pub elem-filter_absent :
      (p : A → Bool) (i : ℕ) (xs : List A)
      → elem i (map id xs) ≡ false
      → elem i (map id (filter p xs)) ≡ false
  elem-filter_absent p i [] h = refl
  elem-filter_absent p i (x ∷ xs) h = ground (arith, elem-filter_absent p i xs)

  -- The id of a row is among those of a query exactly if the query finds the row.
  pub elem-filter_own :
      (p : A → Bool) (xs : List A) (d : A)
      → Distinct (map id xs)
      → Memᴰ d xs
      → elem (id d) (map id (filter p xs)) ≡ p d
  elem-filter_own p [] d u m = elim m [ ]
  elem-filter_own p (x ∷ xs) d u (head eq) =
      subst (λ z. elem (id z) (map id (filter p (x ∷ xs))) ≡ p z) (sym eq)
        (ground (arith, elem-filter_absent p (id x) xs u.0))
  elem-filter_own p (x ∷ xs) d u (tail m) =
      ground (arith, elem_of_Memᴰ id d xs m, elem-filter_own p xs d u.1 m, u.0)
