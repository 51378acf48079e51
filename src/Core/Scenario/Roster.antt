-- ===== src/Core/Scenario/Roster.antt =====
-- app/core/scenario.py: the cast of a run, and how it is written for a fresh simulation. A consumer's
-- name and the profile of its transport are written and not read by what is modelled, and are left
-- out; the ids are those that the database gives, from `next` on.
pub mod Seeded
use webhook_recovery.Prelude.{
  ℕ, ◌+◌, String, Option, none, some, List, [], ◌∷◌, ◌++◌, map, filter, ◌==◌,
}
use webhook_recovery.Core.Enums.{CoalesceMode, latest_by_key}
use webhook_recovery.Core.Models.{Store, Consumer, Subscription, DeliveryPolicy}

pub record PolicySpec : Type 0 where
  pub event_type : String
  pub max_staleness_s : Option ℕ
  pub coalesce : CoalesceMode

pub record ConsumerSpec : Type 0 where
  pub subscribes_to : List String
  pub policies : List PolicySpec
  pub weight : ℕ
  pub concurrency_cap : ℕ
  pub max_attempts_per_s : ℕ

abbrev pub all_event_types : List String
all_event_types =
    "payment_intent.succeeded" ∷ "customer.subscription.updated" ∷ "balance.available"
    ∷ "invoice.paid" ∷ []

-- The values that the class declares for the three knobs.
abbrev pub spec_of : List String → List PolicySpec → ConsumerSpec
spec_of subscribes_to policies = record {
  subscribes_to = subscribes_to;
  policies = policies;
  weight = 1_000;
  concurrency_cap = 8;
  max_attempts_per_s = 20_000;
}

-- Acme Analytics, Bolt Billing and Clover CRM.
abbrev pub roster : List ConsumerSpec
roster =
    spec_of all_event_types []
    ∷ spec_of all_event_types (
        record {
          event_type = "customer.subscription.updated";
          max_staleness_s = none;
          coalesce = latest_by_key;
        }
        ∷ record {
          event_type = "balance.available";
          max_staleness_s = some 60_000_000;
          coalesce = CoalesceMode.none;
        }
        ∷ record {
          event_type = "payment_intent.succeeded";
          max_staleness_s = none;
          coalesce = CoalesceMode.none;
        }
        ∷ [])
    ∷ spec_of ("invoice.paid" ∷ []) []
    ∷ []

abbrev pub new_consumer : ℕ → ℕ → ConsumerSpec → Consumer
new_consumer simulation_id id spec = record {
  id = id;
  simulation_id = simulation_id;
  weight = spec.weight;
  concurrency_cap = spec.concurrency_cap;
  max_attempts_per_s = spec.max_attempts_per_s;
}

abbrev pub new_consumers : ℕ → ℕ → List ConsumerSpec → List Consumer
new_consumers simulation_id next [] = []
new_consumers simulation_id next (spec ∷ specs) =
    new_consumer simulation_id next spec ∷ new_consumers simulation_id (next + 1) specs

abbrev pub new_subscriptions : ℕ → ℕ → List ConsumerSpec → List Subscription
new_subscriptions simulation_id next [] = []
new_subscriptions simulation_id next (spec ∷ specs) =
    map
      (λ event_type. record {
        simulation_id = simulation_id;
        consumer_id = next;
        event_type = event_type;
      })
      spec.subscribes_to
    ++ new_subscriptions simulation_id (next + 1) specs

abbrev pub new_policies : ℕ → ℕ → List ConsumerSpec → List DeliveryPolicy
new_policies simulation_id next [] = []
new_policies simulation_id next (spec ∷ specs) =
    map
      (λ policy. record {
        simulation_id = simulation_id;
        consumer_id = next;
        event_type = policy.event_type;
        max_staleness_s = policy.max_staleness_s;
        coalesce = policy.coalesce;
      })
      spec.policies
    ++ new_policies simulation_id (next + 1) specs

abbrev pub existing : ℕ → Store → List Consumer
existing simulation_id store = filter (λ c. c.simulation_id == simulation_id) store.consumers

-- `seed_simulation`, once the existing consumers are read.
abbrev pub seed_after : ℕ → ℕ → Store → List Consumer → Store × List Consumer
seed_after simulation_id next store (c ∷ cs) = (store, c ∷ cs)
seed_after simulation_id next store [] = (
  record store {
    consumers = store.consumers ++ new_consumers simulation_id next roster;
    subscriptions = store.subscriptions ++ new_subscriptions simulation_id next roster;
    policies = store.policies ++ new_policies simulation_id next roster;
  },
  new_consumers simulation_id next roster,
)

pub seed_simulation : ℕ → ℕ → Store → Store × List Consumer
seed_simulation simulation_id next store =
    seed_after simulation_id next store (existing simulation_id store)
