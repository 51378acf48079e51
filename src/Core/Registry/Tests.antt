-- ===== src/Core/Registry/Tests.antt =====
-- A table of two processes, one of which is asked to crash.
use webhook_recovery.Prelude.{ℕ, ◌≡◌, refl, true, false, List, [], ◌∷◌, ◌++◌, ◌==◌, arith}
use webhook_recovery.Core.Enums.{worker, conductor}
use webhook_recovery.Core.Settings.{default_settings}
use webhook_recovery.Core.Models.{Process, Store}
use webhook_recovery.Core.Registry.{
  new_process, register_process, heartbeat, ProcessRead, kill_process,
}
use webhook_recovery.Core.Registry.Liveness.{
  alive_ones, register_process-alive, kill_process-heartbeat,
}

abbrev two : List Process
two = new_process worker 3 1_000 ∷ new_process conductor 4 20_000_000 ∷ []

abbrev store_of_two : Store
store_of_two = record {
  simulations = [];
  consumers = [];
  subscriptions = [];
  policies = [];
  events = [];
  deliveries = [];
  attempts = [];
  metrics = [];
  processes = two;
  next_event_id = 1;
  next_delivery_id = 1;
  next_attempt_id = 1;
}

register_process-alive_example :
    alive_ones default_settings 22_000_000
      (register_process default_settings worker 5 21_000_000 two)
    ≡ alive_ones default_settings 22_000_000 two
      ++ alive_ones default_settings 22_000_000 (new_process worker 5 21_000_000 ∷ [])
register_process-alive_example =
    register_process-alive default_settings worker 5 21_000_000 22_000_000 two (omega arith)

abbrev marked : List Process
marked =
    new_process worker 3 1_000
    ∷ record (new_process conductor 4 20_000_000) { crash_requested = true }
    ∷ []

abbrev read : ProcessRead
read = record {
  process = record (new_process conductor 4 20_000_000) { crash_requested = true };
  heartbeat_age = 1_000_000;
  in_flight = 0;
}

abbrev store_marked : Store
store_marked = record store_of_two { processes = marked }

kill_process-heartbeat_example :
    ((heartbeat 4 true 23_000_000 (heartbeat 3 true 22_000_000 marked).0).1 ≡ true)
    × ((other : ℕ)
        → (4 == other) ≡ false
        → (heartbeat other true 23_000_000 marked).1 ≡ (heartbeat other true 23_000_000 two).1)
unfolding kill_process
kill_process-heartbeat_example =
    kill_process-heartbeat 4 21_000_000 23_000_000 22_000_000 3 true store_of_two store_marked read
      refl
