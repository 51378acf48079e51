-- ===== src/Core/Scenario/Phases.antt =====
-- The phase that the API shows against the gates that the conductor and the producer read.
use webhook_recovery.Prelude.{ℕ, ◌≤◌, ◌≡◌, ◌↔◌, Bool, true, false, Option, none, some, arith}
use webhook_recovery.Core.Scenario.{outage, phase_at, is_producing, is_finished, is_outage}

-- While a run is not done, the phase shown is the outage exactly when the conductor's gate is shut.
pub phase_at-is_outage :
    (virtual_s : ℕ) (outage_override : Option Bool)
    → (phase_at virtual_s outage_override false ≡ outage)
      ↔ (is_outage virtual_s outage_override ≡ true)
unfolding phase_at is_outage
phase_at-is_outage virtual_s none = (λ e. ground arith, λ e. ground arith)
phase_at-is_outage virtual_s (some true) = (λ e. ground arith, λ e. ground arith)
phase_at-is_outage virtual_s (some false) = (λ e. ground arith, λ e. ground arith)

-- A run that is finished with an empty backlog is finished at every later time too, and nothing is
-- produced then.
pub is_finished_stable :
    (earlier later : ℕ)
    → earlier ≤ later
    → is_finished earlier 0 ≡ true
    → (is_finished later 0 ≡ true) × (is_producing later ≡ false)
unfolding is_finished is_producing
is_finished_stable earlier later h e = ground arith
