-- ===== src/Conductor/Gauges.antt =====
-- app/conductor/metrics.py, the queue depths that a pass reads once: `read_gauges` and
-- `total_backlog`.
pub mod Exact
use webhook_recovery.Prelude.{ℕ, ◌+◌, Bool, ◌&&◌, List, [], ◌∷◌, ◌==◌, if◌then◌else◌, sum_of}
use webhook_recovery.Core.Enums.{DeliveryState, is_active, state_eq}
use webhook_recovery.Core.Models.{Delivery}

-- The groups of `GROUP BY consumer_id, state`, each with its count.
abbrev pub Gauges : Type 0
Gauges = List (ℕ × DeliveryState × ℕ)

tally : ℕ → DeliveryState → Gauges → Gauges
tally consumer_id state [] = (consumer_id, state, 1) ∷ []
tally consumer_id state ((c, s, n) ∷ rest) =
    if c == consumer_id && state_eq s state
    then (c, s, n + 1) ∷ rest
    else (c, s, n) ∷ tally consumer_id state rest

pub read_gauges : ℕ → List Delivery → Gauges
unfolding tally
read_gauges simulation_id [] = []
read_gauges simulation_id (d ∷ ds) =
    let rest = read_gauges simulation_id ds in
    if d.simulation_id == simulation_id && is_active d.state
    then tally d.consumer_id d.state rest
    else rest

-- `gauges.get(consumer_id, {}).get(state, 0)`
pub get_gauge : Gauges → ℕ → DeliveryState → ℕ
get_gauge [] consumer_id state = 0
get_gauge ((c, s, n) ∷ rest) consumer_id state =
    if c == consumer_id && state_eq s state then n else get_gauge rest consumer_id state

pub total_backlog : Gauges → ℕ
total_backlog gauges = sum_of (λ (c, s, n). n) gauges
