-- ===== src/System/Steps.antt =====
-- The processes and the database they share: each step is a transaction of one of them, or the loss
-- of the work that a worker has in hand.
use webhook_recovery.Prelude.{ℕ, ◌≡◌, Bool, List, [], map, ◌==◌, if◌then◌else◌}
use webhook_recovery.Core.Settings.{Settings}
use webhook_recovery.Core.Models.{Simulation, Store}
use webhook_recovery.Api.Ingest.{EventSpec, ingest_events}
use webhook_recovery.Conductor.Metrics.{Cursors}
use webhook_recovery.Conductor.Service.{Readings, run_once}
use webhook_recovery.Worker.Claim.{Claimed, claim_batch}
use webhook_recovery.Worker.Complete.{Completion, complete_batch}

-- The database, and the batch that each worker has claimed and not yet answered for.
pub record System : Type 0 where
  pub store : Store
  pub batches : ℕ → List Claimed

abbrev pub set_batch : ℕ → List Claimed → (ℕ → List Claimed) → ℕ → List Claimed
set_batch worker_id batch batches v = if worker_id == v then batch else batches v

abbrev pub claimed_system : Settings → ℕ → ℕ → ℕ → ℕ → (ℕ → Bool) → System → System
claimed_system settings simulation_id worker_id now limit locked s =
    let out = claim_batch settings simulation_id worker_id now limit locked s.store in
    record { store = out.0; batches = set_batch worker_id out.1 s.batches }

pub data Step (settings : Settings) (s : System) : System → Type 0 where
  -- The producer or the API writes events.
  ingests :
      (sim : Simulation) (specs : List EventSpec) (at_wall : ℕ)
      → Step settings s (record s { store = (ingest_events sim specs at_wall s.store).0 })
  -- The leading conductor runs; `locked` are the rows that a worker's transaction holds.
  conducts :
      (locked : ℕ → Bool) (readings : ℕ → Readings) (cursors : Cursors)
      → Step settings s
          (record s { store = (run_once settings locked readings (cursors, s.store)).1 })
  -- A worker with nothing in hand claims a batch.
  claims :
      (simulation_id worker_id now limit : ℕ) (locked : ℕ → Bool)
      → s.batches worker_id ≡ []
      → Step settings s (claimed_system settings simulation_id worker_id now limit locked s)
  -- A worker records the outcomes of the batch it has in hand, whatever they are.
  completes :
      (worker_id now : ℕ) (completions : List Completion)
      → map (λ c. c.claimed) completions ≡ s.batches worker_id
      → Step settings s (record {
        store = complete_batch settings worker_id completions now s.store;
        batches = set_batch worker_id [] s.batches;
      })
  -- A worker crashes, or an error interrupts it, with the batch in hand.
  loses :
      (worker_id : ℕ) → Step settings s (record s { batches = set_batch worker_id [] s.batches })
  -- The API changes a simulation, a consumer or a policy, in any way.
  edits :
      (store' : Store)
      → store'.deliveries ≡ s.store.deliveries
      → store'.attempts ≡ s.store.attempts
      → store'.next_delivery_id ≡ s.store.next_delivery_id
      → Step settings s (record s { store = store' })

-- The states that steps lead to.
pub data Reach (settings : Settings) (s : System) : System → Type 0 where
  start : Reach settings s s
  later : {t u : System} → Reach settings s t → Step settings t u → Reach settings s u

pub reach_join :
    {settings : Settings} {s t u : System}
    → Reach settings s t
    → Reach settings t u
    → Reach settings s u
reach_join r start = r
reach_join r (later q step) = later (reach_join r q) step
