-- ===== src/Tests/System.antt =====
-- Steps of the system from the sample run.
use mathlib.Core.List.{Memᴰ}
use mathlib.Core.List.Memᴰ.{head, tail}
use webhook_recovery.Prelude.{false, ◌+◌, ◌≤◌, ◌≡◌, refl, none, some, [], ◌∷◌, map, All, arith}
use webhook_recovery.Core.Enums.{delivered, ok}
use webhook_recovery.Core.Settings.{default_settings}
use webhook_recovery.Core.Models.{Store, Delivery}
use webhook_recovery.Conductor.Metrics.{Cursors}
use webhook_recovery.Conductor.Service.{run_once}
use webhook_recovery.Worker.Service.{Surroundings}
use webhook_recovery.System.Rows.{Course}
use webhook_recovery.System.Life.{IsWithin, moves_left, path_length}
use webhook_recovery.System.Steps.{System, claimed_system, conducts, claims, Reach, start, later}
use webhook_recovery.System.Invariant.{Inv}
use webhook_recovery.System.Reach.{Reach-Inv}
use webhook_recovery.System.Lives.{Reach-path_length, Reach-final}
use webhook_recovery.System.Ledger.{tries_of}
use webhook_recovery.System.Attempts.{Reach-attempts}
use webhook_recovery.Tests.Samples.{
  sample_store, sample_distinct, none_locked, delivery_at, flying, waiting, older, newer,
}

abbrev unwritten : Cursors
unwritten id = none

abbrev sent : Delivery
sent = delivery_at 9 90 delivered (some 7) (some 400)

-- The sample run with a delivery that is settled, and no batch in hand.
abbrev initial : System
initial = record {
  store = record sample_store { deliveries = sent ∷ sample_store.deliveries };
  batches = λ worker_id. [];
}

few_tries : (d : Delivery) → d.attempt_count ≡ 1 → IsWithin default_settings d
few_tries d e = record { queued = λ h. omega (arith, e); counted = omega (arith, e) }

initial-Inv : Inv default_settings initial
initial-Inv = record {
  serial = record {
    distinct = (refl, sample_distinct);
    below = (omega arith, (omega arith, (omega arith, (omega arith, (omega arith, tt)))));
  };
  within = (
    few_tries sent refl,
    (
      few_tries flying refl,
      (few_tries waiting refl, (few_tries older refl, (few_tries newer refl, tt))),
    ),
  );
  distinct = λ worker_id. tt;
  current = λ worker_id c d m n e h. elim m [ ];
}

-- A run of the conductor, then a claim by worker 8.
abbrev conducted : System
conducted = record initial {
  store = (run_once default_settings none_locked (λ id. (50, 50)) (unwritten, initial.store)).1;
}

abbrev later_on : System
later_on = claimed_system default_settings 1 8 1_200 16 none_locked conducted

steps : Reach default_settings initial later_on
steps =
    later (later start (conducts none_locked (λ id. (50, 50)) unwritten))
      (claims 1 8 1_200 16 none_locked refl)

Reach-Inv_example : Inv default_settings later_on
Reach-Inv_example = Reach-Inv default_settings (omega arith) initial later_on steps initial-Inv

Reach-path_length_example :
    (e : Delivery) × Memᴰ e later_on.store.deliveries
    × (e.id ≡ 10)
    × (p : Course default_settings flying e) × (path_length p + moves_left default_settings e
        ≤ moves_left default_settings flying)
Reach-path_length_example =
    Reach-path_length default_settings (omega arith) initial initial-Inv flying (tail (head refl))
      later_on steps

Reach-final_example : Memᴰ sent later_on.store.deliveries
Reach-final_example =
    Reach-final default_settings (omega arith) initial initial-Inv sent (head refl) later_on steps
      refl

-- What the others do: a run of the conductor.
abbrev conducted_store : Store → Store
conducted_store store =
    (run_once default_settings none_locked (λ id. (50, 50)) (unwritten, store)).1

abbrev around : Surroundings
around = record {
  before = λ simulation_id. conducted_store;
  during = λ simulation_id. conducted_store;
  locked = λ simulation_id. none_locked;
  claim_at = λ simulation_id. 60;
  complete_at = λ simulation_id. 61;
  asked = λ simulation_id. false;
  attempt = λ simulation_id c. record { outcome = ok; status_code = some 200 };
  asked_last = false;
  monotonic = 5;
}

-- The delivery in flight alone: one attempt counted, and one in the table.
abbrev one_flying : System
one_flying = record {
  store = record sample_store { deliveries = flying ∷ [] };
  batches = λ worker_id. [];
}

one_flying-Inv : Inv default_settings one_flying
one_flying-Inv = record {
  serial = record { distinct = (refl, tt); below = (omega arith, tt) };
  within = (few_tries flying refl, tt);
  distinct = λ worker_id. tt;
  current = λ worker_id c d m n e h. elim m [ ];
}

-- After a run of the conductor, worker 8 claims.
abbrev run_over : System
run_over = record one_flying {
  store = (run_once default_settings none_locked (λ id. (50, 50)) (unwritten, one_flying.store)).1;
}

abbrev claimed_after : System
claimed_after = claimed_system default_settings 1 8 1_200 16 none_locked run_over

Reach-attempts_example :
    All
      (λ d.
        let tried = tries_of d.id (map (λ a. a.delivery_id) claimed_after.store.attempts) in
        (tried ≡ d.attempt_count) × (tried ≤ 5))
      claimed_after.store.deliveries
Reach-attempts_example =
    Reach-attempts default_settings (omega arith) one_flying claimed_after
      (later (later start (conducts none_locked (λ id. (50, 50)) unwritten))
        (claims 1 8 1_200 16 none_locked refl))
      one_flying-Inv (record { agree = (refl, tt); known = (omega arith, tt) })
