-- ===== src/Conductor/Admission/Allocate.antt =====
-- What the weighted round-robin of `allocate` guarantees.
pub mod Least
pub mod Invariant
use webhook_recovery.Prelude.{
  ℕ, ◌+◌, ◌-◌, ◌*◌, ◌≤◌, ◌<◌, ◌≡◌, refl, Bool, true, false, not, ◌&&◌, List, [], ◌∷◌, arith, min,
  ltb, ◌==◌, if◌then◌else◌, elem, filter, sum_of, All, Distinct, Bool-cases, inl, inr,
}
use webhook_recovery.Conductor.Admission.{
  Slots, ConsumerState, allocate, allocate_loop, weight_of, state_ids,
}
use webhook_recovery.Conductor.Admission.Allocate.Invariant.{
  Inv, Final, elem-filter, allocate_loop-Final, allocate_loop-le,
}

weight_of_pos :
    (states : List ConsumerState) (c : ℕ)
    → All (λ s. 0 < s.weight) states
    → elem c (state_ids states) ≡ true
    → 0 < weight_of states c
weight_of_pos [] c w h = cc
weight_of_pos (s ∷ ss) c w h = ground (arith, weight_of_pos ss c w.1)

-- No consumer is granted more than its headroom.
pub allocate-le-headroom :
    (states : List ConsumerState) (headrooms : Slots) (budget c : ℕ)
    → allocate states headrooms budget c ≤ headrooms c
unfolding allocate
allocate-le-headroom states headrooms budget c =
    allocate_loop-le headrooms (weight_of states) budget (state_ids states) c

module _ (states : List ConsumerState) (headrooms : Slots) (budget : ℕ)
    (distinct : Distinct (state_ids states)) (weighted : All (λ s. 0 < s.weight) states) where
  abbrev ids : List ℕ
  ids = state_ids states

  abbrev start : List ℕ
  start = filter (λ c. ltb 0 (headrooms c)) ids

  start-Inv : Inv headrooms (weight_of states) ids start (λ c. 0)
  start-Inv = record {
    known = λ b h. ground (arith, elem-filter (λ c. ltb 0 (headrooms c)) b ids);
    within = λ b. omega arith;
    room = λ b h. ground (arith, elem-filter (λ c. ltb 0 (headrooms c)) b ids);
    full = λ b h k. ground (arith, elem-filter (λ c. ltb 0 (headrooms c)) b ids);
    fair = λ a b h. omega arith;
  }

  final : Final headrooms (weight_of states) ids (λ c. 0) (allocate states headrooms budget) budget
  unfolding allocate
  final =
      allocate_loop-Final headrooms (weight_of states) ids distinct
        (λ c h. weight_of_pos states c weighted h) budget start (λ c. 0) start-Inv

  sum_of_zero : (cs : List ℕ) → sum_of (λ (c : ℕ). 0) cs ≡ 0
  sum_of_zero [] = refl
  sum_of_zero (c ∷ cs) = omega (arith, sum_of_zero cs)

  -- Work conserving: with distinct consumers of positive weight, the slots handed out are as many
  -- as the budget, or all the headroom there is if that is less.
  pub allocate_total :
      sum_of (allocate states headrooms budget) (state_ids states)
      ≡ min budget (sum_of headrooms (state_ids states))
  allocate_total = omega (arith, final.total, sum_of_zero ids)

  -- Weighted fairness: with distinct consumers of positive weight, whoever is left with headroom to
  -- spare has a share granted / weight that no other consumer's exceeds by more than its last slot.
  pub allocate_fair :
      (a b : ℕ)
      → elem b (state_ids states) ≡ true
      → allocate states headrooms budget b < headrooms b
      → (allocate states headrooms budget a - 1) * weight_of states b
        ≤ allocate states headrooms budget b * weight_of states a
  allocate_fair a b known spare = elim (Bool-cases (elem b final.still_active)) [
    | inl active ↦ final.inv.fair a b active
    | inr idle ↦ absurd (omega (arith, final.inv.full b known idle))
  ]
