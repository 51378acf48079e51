-- ===== src/Conductor/Admission/Allocate/Least.antt =====
-- The consumer that `furthest_behind` picks has the least fraction granted / weight.
use native.Mathlib.Nat.{mul-le-mul_right, le_of_mul-le-mul_right}
use webhook_recovery.Prelude.{
  ℕ, ◌*◌, ◌≤◌, ◌<◌, ◌≡◌, true, ◌||◌, inl, inr, List, [], ◌∷◌, arith, ◌==◌, if◌then◌else◌, elem,
  Bool-cases,
}
use webhook_recovery.Conductor.Admission.{Slots, precedes, furthest_behind}

cross_trans : (a b c wa wb wc : ℕ) → 0 < wb → a * wb ≤ b * wa → b * wc ≤ c * wb → a * wc ≤ c * wa
cross_trans a b c wa wb wc pos h k =
    le_of_mul-le-mul_right {k = wb} (omega (arith, mul-le-mul_right wc h, mul-le-mul_right wa k))
      pos

module _ (granted weights : Slots) where
  -- The fraction of `a` is at most that of `b`.
  abbrev pub Behind : ℕ → ℕ → Type 0
  Behind a b = granted a * weights b ≤ granted b * weights a

  abbrev pub Weighted : List ℕ → Type 0
  Weighted cs = (c : ℕ) → elem c cs ≡ true → 0 < weights c

  abbrev better : ℕ → ℕ → ℕ
  better best c = if precedes granted weights c best then c else best

  better-Behind : (best c : ℕ) → Behind (better best c) best × Behind (better best c) c
  unfolding precedes
  better-Behind best c = ground arith

  better_mem : (best c x : ℕ) → (better best c == x) ≡ true → ((best == x) || (c == x)) ≡ true
  better_mem best c x h = ground arith

  pub furthest_behind-mem :
      (best : ℕ) (rest : List ℕ)
      → elem (furthest_behind granted weights best rest) (best ∷ rest) ≡ true
  unfolding furthest_behind
  furthest_behind-mem best [] = ground arith
  furthest_behind-mem best (c ∷ rest) = ground (arith, furthest_behind-mem (better best c) rest)

  better-Weighted :
      (best c : ℕ) (rest : List ℕ) → Weighted (best ∷ c ∷ rest) → Weighted (better best c ∷ rest)
  better-Weighted best c rest w k h = w k (ground arith)

  Behind-via :
      (m best c b : ℕ) (rest : List ℕ)
      → Weighted (best ∷ c ∷ rest)
      → Behind m (better best c)
      → Behind (better best c) b
      → Behind m b
  Behind-via m best c b rest w h k =
      cross_trans (granted m) (granted (better best c)) (granted b) (weights m)
        (weights (better best c)) (weights b)
        (better-Weighted best c rest w (better best c) (ground arith)) h k

  pub furthest_behind_least :
      (best : ℕ) (rest : List ℕ) (b : ℕ)
      → Weighted (best ∷ rest)
      → elem b (best ∷ rest) ≡ true
      → Behind (furthest_behind granted weights best rest) b
  unfolding furthest_behind
  furthest_behind_least best [] b w h = ground arith
  furthest_behind_least best (c ∷ rest) b w h =
      let ih = furthest_behind_least (better best c) rest in
      let w' = better-Weighted best c rest w in
      let via = Behind-via _ best c b rest w (ih (better best c) w' (ground arith)) in
      elim (Bool-cases (b == best)) [
        | inl e ↦ via (ground (arith, better-Behind best c))
        | inr ne ↦ elim (Bool-cases (b == c)) [
          | inl e ↦ via (ground (arith, better-Behind best c))
          | inr ne' ↦ ih b w' (ground arith)
        ]
      ]
