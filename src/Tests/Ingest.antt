-- ===== src/Tests/Ingest.antt =====
-- Two events of the sample run, and one subscription to their type.
use webhook_recovery.Prelude.{
  ◌+◌, ◌≡◌, none, some, List, [], ◌∷◌, ◌++◌, ◌==◌, ◌&&◌, length, count, sum_of,
}
use webhook_recovery.Core.Models.{Store}
use webhook_recovery.Core.Scenario.Roster.{seed_simulation}
use webhook_recovery.Core.Scenario.Roster.Seeded.{seed_simulation_again}
use webhook_recovery.Api.Ingest.{EventSpec, subscribes, ingest_events}
use webhook_recovery.Api.Ingest.FanOut.{is_for, ingest_events-count}
use webhook_recovery.Tests.Samples.{sample_sim, sample_store}

abbrev subscribed : Store
subscribed = record sample_store {
  subscriptions = record { simulation_id = 1; consumer_id = 2; event_type = "price" } ∷ [];
}

abbrev specs : List EventSpec
specs =
    record { event_type = "price"; entity_key = "A"; occurred_at = none }
    ∷ record { event_type = "note"; entity_key = "B"; occurred_at = some 900 }
    ∷ []

ingest_events-count_example :
    let out = ingest_events sample_sim specs 60 subscribed in
    (out.0.events ≡ [] ++ out.1)
    × (length out.1 ≡ 2)
    × (count (is_for 2) out.0.deliveries
        ≡ 0
          + sum_of
              (λ event.
                count
                  (λ s. subscribes 1 event.event_type s && s.consumer_id == 2)
                  subscribed.subscriptions)
              out.1)
ingest_events-count_example = ingest_events-count sample_sim specs 60 subscribed 2

-- A simulation without consumers, beside one that has them.
seed_simulation_again_example :
    let out = seed_simulation 2 5 sample_store in seed_simulation 2 9 out.0 ≡ out
seed_simulation_again_example = seed_simulation_again 2 5 9 sample_store
