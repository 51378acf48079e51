-- ===== src/Conductor/Admission/Headroom.antt =====
-- The headroom of a consumer and the slots of a pass keep to the caps.
use webhook_recovery.Prelude.{ℕ, ◌+◌, ◌≤◌, ◌<◌, ◌≡◌, Bool, false, arith, count}
use webhook_recovery.Core.Settings.{Settings}
use webhook_recovery.Core.Models.{Store}
use webhook_recovery.Conductor.Admission.{
  ConsumerState, headroom, per_window, slots, compute_budget, buffer_target, ready_in, in_window,
  total_cap,
}

-- A consumer with headroom has demand for it, and what it has attempted in the window, what is
-- ready for it and the headroom together keep to its rate cap. Unless concurrency is pooled, it
-- is also below its concurrency cap.
pub headroom_caps :
    (state : ConsumerState) (window : ℕ) (pooled : Bool)
    → 0 < headroom state window pooled
    → (headroom state window pooled ≤ state.demand)
      × (state.attempts_in_window + state.ready + headroom state window pooled
          ≤ per_window state.max_attempts_per_s window)
      × (pooled ≡ false → state.in_flight < state.concurrency_cap)
unfolding headroom
headroom_caps state window pooled h = (ground arith, ground arith, λ e. ground arith)

-- A pass with slots to give has that much room in the buffer and under the provider's rate.
pub compute_budget-slots :
    (settings : Settings) (store : Store) (simulation_id rate now : ℕ)
    → let budget = compute_budget settings store simulation_id rate now in
      let ready_count = count (ready_in simulation_id) store.deliveries in
      let window = settings.fairness_window_virtual_s in
      0 < slots budget
      → (ready_count + slots budget
          ≤ buffer_target settings.ready_buffer_depth_multiplier
              (total_cap simulation_id store.consumers))
        × (count (in_window simulation_id now window) store.attempts + (ready_count + slots budget)
            ≤ per_window rate window)
unfolding compute_budget
compute_budget-slots settings store simulation_id rate now h = (ground arith, ground arith)
