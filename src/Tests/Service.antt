-- ===== src/Tests/Service.antt =====
-- A worker's passes over the sample run.
use mathlib.Core.List.Memᴰ.{head, tail}
use webhook_recovery.Prelude.{
  ◌+◌, ℕ, ◌≡◌, refl, Bool, true, false, none, some, [], ◌∷◌, ◌++◌, arith,
}
use webhook_recovery.Core.Enums.{ok, in_flight}
use webhook_recovery.Core.Settings.{default_settings}
use webhook_recovery.Core.Models.{Store, Delivery}
use webhook_recovery.Core.Clock.{from_row, now_at}
use webhook_recovery.Conductor.Policy.{staleness}
use webhook_recovery.Worker.Claim.{
  Claimed, claim_batch, claimable, split_stale, expire, lease, insert_attempts, claims,
}
use webhook_recovery.Worker.Service.{Surroundings, alive, run_once}
use webhook_recovery.Worker.Service.Crash.{
  is_dead, Visit, passes, crash_is_honoured, run_once_unasked,
}
use webhook_recovery.Worker.Service.Batch.{IsAnswered, drain-IsAnswered}
use webhook_recovery.Tests.Samples.{sample_sim, sample_store, sample_distinct, none_locked, waiting}

abbrev around : Bool → ℕ → Surroundings
around asked monotonic = record {
  before = λ simulation_id store. store;
  during = λ simulation_id store. store;
  locked = λ simulation_id. none_locked;
  claim_at = λ simulation_id. 60;
  complete_at = λ simulation_id. 61;
  asked = λ simulation_id. asked;
  attempt = λ simulation_id c. record { outcome = ok; status_code = some 200 };
  asked_last = asked;
  monotonic = monotonic;
}

abbrev visit : ℕ → Visit
visit monotonic = record {
  others = λ store. record store { deliveries = [] };
  around = around true monotonic;
}

crash_is_honoured_example :
    is_dead (
      passes default_settings 7
        (visit 1_000_000 ∷ ((visit 3_000_000 ∷ []) ++ (visit 6_000_000 ∷ [])))
        (alive none sample_store))
    ≡ true
crash_is_honoured_example =
    crash_is_honoured default_settings 7 (visit 1_000_000) (visit 6_000_000) (visit 3_000_000 ∷ [])
      sample_store (record { each = λ id. refl; last = refl })
      (record { each = λ id. refl; last = refl }, tt) (record { each = λ id. refl; last = refl })
      (omega arith)

run_once_unasked_example :
    (store : Store) × (run_once default_settings 7 (around false 5) (some 3) sample_store
      ≡ alive none store)
run_once_unasked_example =
    run_once_unasked default_settings 7 (around false 5) (some 3) sample_store
      (record { each = λ id. refl; last = refl })

-- Worker 7 claims delivery 11, which is still in flight when its attempt is recorded.
abbrev taken : Claimed
taken = record {
  delivery_id = 11;
  consumer_id = 1;
  attempt_no = 2;
  attempt_id = sample_store.next_attempt_id;
}

abbrev leased : Delivery
leased = record waiting {
  state = in_flight;
  leased_by = some 7;
  lease_expires_at = some (now_at (from_row sample_sim) 60 + 30_000_000);
  attempt_count = 2;
}

drain-IsAnswered_example :
    IsAnswered default_settings sample_sim 7 (around false 5) none sample_store taken leased
unfolding claim_batch claimable split_stale expire lease insert_attempts claims staleness now_at
drain-IsAnswered_example =
    drain-IsAnswered default_settings sample_sim 7 (around false 5) none sample_store
      sample_distinct refl refl taken leased (head refl) (tail (head refl)) refl
