-- ===== src/Core/Scenario.antt =====
-- app/core/scenario.py: the phase boundaries. A virtual second is a number of microseconds since the
-- start of the run; a clock that reads a time before the start counts as 0, which lies on the same
-- side of every boundary.
pub mod Phases
pub mod Roster
use webhook_recovery.Prelude.{
  ℕ, Bool, true, false, not, ◌&&◌, Option, none, some, ltb, leb, ◌==◌, if◌then◌else◌,
}

pub data Phase : Type 0 where
  normal outage recovery done : Phase

-- 120 s, 420 s, 900 s and 1800 s.
abbrev pub outage_starts_at : ℕ
outage_starts_at = 120_000_000

abbrev pub outage_ends_at : ℕ
outage_ends_at = 420_000_000

abbrev pub scenario_ends_at : ℕ
scenario_ends_at = 900_000_000

abbrev pub scenario_max_virtual : ℕ
scenario_max_virtual = 1_800_000_000

scripted_phase : ℕ → Phase
scripted_phase virtual_s =
    if ltb virtual_s outage_starts_at
    then normal
    else if ltb virtual_s outage_ends_at
    then outage
    else recovery

-- The branches on `outage_override`, in the order of the source.
overridden_phase : ℕ → Option Bool → Phase
unfolding scripted_phase
overridden_phase virtual_s (some true) = outage
overridden_phase virtual_s (some false) =
    if ltb virtual_s outage_starts_at then normal else recovery
overridden_phase virtual_s none = scripted_phase virtual_s

pub phase_at : ℕ → Option Bool → Bool → Phase
unfolding overridden_phase
phase_at virtual_s outage_override is_done =
    if is_done then done else overridden_phase virtual_s outage_override

pub is_producing : ℕ → Bool
is_producing virtual_s = ltb virtual_s scenario_ends_at

unfoldable pub is_finished : ℕ → ℕ → Bool
unfolding is_producing
is_finished virtual_s backlog =
    if leb scenario_max_virtual virtual_s
    then true
    else not (is_producing virtual_s) && backlog == 0

unfoldable pub is_outage : ℕ → Option Bool → Bool
is_outage virtual_s (some overridden) = overridden
is_outage virtual_s none = leb outage_starts_at virtual_s && ltb virtual_s outage_ends_at
