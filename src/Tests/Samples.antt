-- ===== src/Tests/Samples.antt =====
-- A small run: two consumers, three deliveries of one key, and the attempt of the one in flight.
use webhook_recovery.Prelude.{
  ℕ, refl, map, Distinct, Option, none, some, [], ◌∷◌, Bool, false, true,
}
use webhook_recovery.Core.Enums.{
  running, DeliveryState, pending, ready, in_flight, CoalesceMode, ok, server_error,
}
use webhook_recovery.Core.Models.{Simulation, Consumer, Delivery, Attempt, Store}
use webhook_recovery.Worker.Claim.{Claimed}
use webhook_recovery.Worker.Complete.{Completion}
use webhook_recovery.Conductor.Policy.{PolicyMap}

abbrev pub sample_sim : Simulation
sample_sim = record {
  id = 1;
  status = running;
  virtual_epoch = 1_000;
  resumed_at_wall = 50;
  paused_at_virtual = none;
  speed_multiplier = 20_000;
  fair_drain_enabled = true;
  global_attempts_per_s = 40_000;
  outage_override = none;
}

abbrev pub consumer_at : ℕ → ℕ → Consumer
consumer_at id weight = record {
  id = id;
  simulation_id = 1;
  weight = weight;
  concurrency_cap = 4;
  max_attempts_per_s = 8_000;
}

abbrev pub delivery_at : ℕ → ℕ → DeliveryState → Option ℕ → Option ℕ → Delivery
delivery_at id created_at state leased_by lease_expires_at = record {
  id = id;
  simulation_id = 1;
  event_id = id;
  consumer_id = 1;
  event_type = "price";
  entity_key = "A";
  state = state;
  attempt_count = 1;
  next_attempt_at = some created_at;
  ready_at = some created_at;
  leased_by = leased_by;
  lease_expires_at = lease_expires_at;
  terminal_reason = none;
  created_at = created_at;
  completed_at = none;
}

abbrev pub flying : Delivery
flying = delivery_at 10 100 in_flight (some 7) (some 500)

abbrev pub waiting : Delivery
waiting = delivery_at 11 200 ready none none

abbrev pub older : Delivery
older = delivery_at 12 150 pending none none

abbrev pub newer : Delivery
newer = delivery_at 13 900 pending none none

abbrev pub started : Attempt
started = record {
  id = 1;
  simulation_id = 1;
  delivery_id = 10;
  consumer_id = 1;
  worker_id = 7;
  started_at = 300;
  finished_at = none;
  outcome = none;
  status_code = none;
}

abbrev pub sample_store : Store
sample_store = record {
  simulations = sample_sim ∷ [];
  consumers = consumer_at 1 3_000 ∷ consumer_at 2 1_000 ∷ [];
  subscriptions = [];
  policies = [];
  events = [];
  deliveries = flying ∷ waiting ∷ older ∷ newer ∷ [];
  attempts = started ∷ [];
  metrics = [];
  processes = [];
  next_event_id = 20;
  next_delivery_id = 20;
  next_attempt_id = 2;
}

abbrev pub latest_price : PolicyMap
latest_price =
    (1, "price", record { max_staleness_s = some 1_000; coalesce = CoalesceMode.latest_by_key })
    ∷ []

abbrev pub claim_of_flying : Claimed
claim_of_flying = record { delivery_id = 10; consumer_id = 1; attempt_no = 1; attempt_id = 1 }

abbrev pub refused : Completion
refused = record { claimed = claim_of_flying; outcome = server_error; status_code = some 503 }

abbrev pub accepted : Completion
accepted = record { claimed = claim_of_flying; outcome = ok; status_code = some 200 }

abbrev pub none_locked : ℕ → Bool
none_locked id = false

pub sample_distinct : Distinct (map (λ d. d.id) sample_store.deliveries)
sample_distinct = (refl, (refl, (refl, (refl, tt))))
