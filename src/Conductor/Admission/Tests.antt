-- ===== src/Conductor/Admission/Tests.antt =====
-- Allocation and headroom for two consumers whose weights are 3 and 1.
use webhook_recovery.Prelude.{ℕ, ◌-◌, ◌*◌, ◌≤◌, ◌≡◌, refl, List, [], ◌∷◌, arith, min, sum_of}
use webhook_recovery.Conductor.Admission.{
  ConsumerState, allocate, allocate_loop, grant, furthest_behind, precedes,
}
use webhook_recovery.Conductor.Admission.Allocate.{allocate_fair, allocate_total}

abbrev state_at : ℕ → ℕ → ConsumerState
state_at id weight = record {
  id = id;
  weight = weight;
  concurrency_cap = 4;
  max_attempts_per_s = 8_000;
  demand = 100;
  attempts_in_window = 5;
  in_flight = 2;
  ready = 3;
}

abbrev two_states : List ConsumerState
two_states = state_at 1 3_000 ∷ state_at 2 1_000 ∷ []

allocate_total_example :
    sum_of (allocate two_states (λ c. 10) 4) (1 ∷ 2 ∷ [])
    ≡ min 4 (sum_of {A = ℕ} (λ c. 10) (1 ∷ 2 ∷ []))
allocate_total_example =
    allocate_total two_states (λ c. 10) 4 (refl, (refl, tt)) (omega arith, (omega arith, tt))

allocate_fair_example :
    (allocate two_states (λ c. 10) 4 1 - 1) * 1_000 ≤ allocate two_states (λ c. 10) 4 2 * 3_000
unfolding allocate allocate_loop grant furthest_behind precedes
allocate_fair_example =
    allocate_fair two_states (λ c. 10) 4 (refl, (refl, tt)) (omega arith, (omega arith, tt)) 1 2
      refl (omega arith)
