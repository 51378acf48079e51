-- ===== src/Conductor/Policy/Winner.antt =====
-- The winner of a key: the queued delivery of the key that no other is later than.
use mathlib.Core.List.{Memᴰ}
use mathlib.Core.List.Memᴰ.{head, tail}
use webhook_recovery.Prelude.{
  ℕ, ◌≡◌, refl, ◌∙◌, true, false, ◌⊎◌, inl, inr, Option, none, some, List, [], ◌∷◌, arith,
  Bool-cases,
}
use webhook_recovery.Core.Models.{Delivery}
use webhook_recovery.Conductor.Policy.{Key, before, later_of, is_rival, winner}

abbrev pub stamp : Delivery → ℕ × ℕ
stamp d = (d.created_at, d.id)

before_trans : (p q r : ℕ × ℕ) → before p q ≡ false → before q r ≡ false → before p r ≡ false
unfolding before
before_trans (a, i) (b, j) (c, k) h h' = ground arith

before_asym : (p q : ℕ × ℕ) → before p q ≡ true → before q p ≡ false
unfolding before
before_asym (a, i) (b, j) h = ground arith

pub before_irrefl : (p : ℕ × ℕ) → before p p ≡ false
unfolding before
before_irrefl (a, i) = ground arith

-- What `later_of` picks is later than neither the old winner nor the new row.
later_of_lem :
    (o : Option (ℕ × ℕ)) (p : ℕ × ℕ)
    → (r : ℕ × ℕ) × (later_of o p ≡ some r)
      × (before r p ≡ false)
      × ((q : ℕ × ℕ) → o ≡ some q → before r q ≡ false)
      × ((r ≡ p) ⊎ (o ≡ some r))
unfolding later_of
later_of_lem none p = (p, refl, before_irrefl p, λ q e. cc, inl refl)
later_of_lem (some q) p = elim (Bool-cases (before q p)) [
  | inl e ↦ (p, rw e refl, before_irrefl p, λ r h. ground (arith, before_asym q p), inl refl)
  | inr e ↦ (q, rw e refl, e, λ r h. ground (arith, before_irrefl q), inr refl)
]

module _ (simulation_id : ℕ) (key : Key) where
  winner-cons :
      (x : Delivery) (ds : List Delivery)
      → ((is_rival simulation_id key x ≡ true)
          × (winner simulation_id (x ∷ ds) key ≡ later_of (winner simulation_id ds key) (stamp x)))
        ⊎ ((is_rival simulation_id key x ≡ false)
            × (winner simulation_id (x ∷ ds) key ≡ winner simulation_id ds key))
  unfolding winner
  winner-cons x ds = elim (Bool-cases (is_rival simulation_id key x)) [
    | inl e ↦ inl (e, rw e refl)
    | inr e ↦ inr (e, rw e refl)
  ]

  -- A key with a queued row has a winner, and the row is not later than it.
  pub winner_max :
      (ds : List Delivery) (d : Delivery)
      → Memᴰ d ds
      → is_rival simulation_id key d ≡ true
      → (p : ℕ × ℕ) × (winner simulation_id ds key ≡ some p) × (before p (stamp d) ≡ false)
  winner_max [] d m h = elim m [ ]
  winner_max (x ∷ ds) d (head e) h = elim (winner-cons x ds) [
    | inl (_, eq) ↦
        let (r, r_eq, r_x, _, _) = later_of_lem (winner simulation_id ds key) (stamp x) in
        (r, eq ∙ r_eq, rw e r_x)
    | inr (miss, eq) ↦ absurd (cc)
  ]
  winner_max (x ∷ ds) d (tail m) h =
      let (p, p_eq, p_d) = winner_max ds d m h in
      elim (winner-cons x ds) [
        | inl (_, eq) ↦
            let (r, r_eq, _, r_old, _) = later_of_lem (winner simulation_id ds key) (stamp x) in
            (r, eq ∙ r_eq, before_trans r p (stamp d) (r_old p p_eq) p_d)
        | inr (_, eq) ↦ (p, eq ∙ p_eq, p_d)
      ]

  -- The winner is a queued row of the key.
  pub winner_row :
      (ds : List Delivery) (p : ℕ × ℕ)
      → winner simulation_id ds key ≡ some p
      → (d : Delivery) × Memᴰ d ds × (is_rival simulation_id key d ≡ true) × (p ≡ stamp d)
  unfolding winner
  winner_row [] p h = cc
  winner_row (x ∷ ds) p h = elim (winner-cons x ds) [
    | inl (hit, eq) ↦
        let (r, r_eq, _, _, origin) = later_of_lem (winner simulation_id ds key) (stamp x) in
        elim origin [
          | inl e ↦ (x, head refl, hit, cc)
          | inr e ↦ let (d, m, rival, at) = winner_row ds p (cc) in (d, tail m, rival, at)
        ]
    | inr (_, eq) ↦ let (d, m, rival, at) = winner_row ds p (cc) in (d, tail m, rival, at)
  ]
