-- ===== src/Conductor/Selection/Rationing.antt =====
-- The rationing loop of `select_candidates`.
use webhook_recovery.Prelude.{
  ℕ, ◌+◌, ◌≤◌, ◌≡◌, ◌⊎◌, inr, Bool, List, [], ◌∷◌, arith, min, ◌==◌, length, count,
}
use webhook_recovery.Conductor.Policy.{Candidate}
use webhook_recovery.Conductor.Admission.{Slots, increment}
use webhook_recovery.Conductor.Selection.{ration}

abbrev pub is_for : ℕ → Candidate → Bool
is_for consumer_id c = c.consumer_id == consumer_id

length-ration-le :
    (budget : ℕ) (allowed taken : Slots) (n : ℕ) (cs : List Candidate)
    → n ≤ budget
    → n + length (ration budget allowed taken n cs) ≤ budget
unfolding ration
length-ration-le budget allowed taken n [] h = omega arith
length-ration-le budget allowed taken n (c ∷ cs) h = ground (
  arith,
  length-ration-le budget allowed taken n cs h,
  length-ration-le budget allowed (increment taken c.consumer_id) (n + 1) cs,
)

count-ration-le :
    (budget : ℕ) (allowed taken : Slots) (n : ℕ) (cs : List Candidate) (k : ℕ)
    → taken k ≤ allowed k
    → taken k + count (is_for k) (ration budget allowed taken n cs) ≤ allowed k
unfolding ration
count-ration-le budget allowed taken n [] k h = omega arith
count-ration-le budget allowed taken n (c ∷ cs) k h = ground (
  arith,
  count-ration-le budget allowed taken n cs k h,
  count-ration-le budget allowed (increment taken c.consumer_id) (n + 1) cs k,
)

-- The loop stops short of a candidate only where the budget is used up or its consumer has had all
-- it is allowed.
ration_full :
    (budget : ℕ) (allowed taken : Slots) (n : ℕ) (cs : List Candidate) (k : ℕ)
    → n ≤ budget
    → taken k ≤ allowed k
    → (n + length (ration budget allowed taken n cs) ≡ budget)
      ⊎ (taken k + count (is_for k) (ration budget allowed taken n cs)
          ≡ min (allowed k) (taken k + count (is_for k) cs))
unfolding ration
ration_full budget allowed taken n [] k h t = inr (omega arith)
ration_full budget allowed taken n (c ∷ cs) k h t = ground (
  arith,
  ration_full budget allowed taken n cs k h t,
  ration_full budget allowed (increment taken c.consumer_id) (n + 1) cs k,
)

-- Rationing admits at most the budget in all and at most its allowance of each consumer, and it
-- leaves nothing behind that could be admitted: either the budget is used up, or each consumer has
-- its whole allowance or all of its candidates.
pub ration_lem :
    (budget : ℕ) (allowed : Slots) (cs : List Candidate) (k : ℕ)
    → let admitted = ration budget allowed (λ c. 0) 0 cs in
      (length admitted ≤ budget)
      × (count (is_for k) admitted ≤ allowed k)
      × ((length admitted ≡ budget)
          ⊎ (count (is_for k) admitted ≡ min (allowed k) (count (is_for k) cs)))
ration_lem budget allowed cs k = (
  omega (arith, length-ration-le budget allowed (λ c. 0) 0 cs (omega arith)),
  omega (arith, count-ration-le budget allowed (λ c. 0) 0 cs k (omega arith)),
  omega (arith, ration_full budget allowed (λ c. 0) 0 cs k (omega arith) (omega arith)),
)
