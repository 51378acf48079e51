-- ===== src/Core/Models.antt =====
-- app/core/models.py: a row is a record, a nullable column an `Option`, a table a list of rows in
-- the order in which a scan meets them. A UUID or a serial id is a number, a timestamp a number of
-- microseconds since `datetime.min`, a rate or a weight a number of thousandths.
use webhook_recovery.Prelude.{ℕ, String, Bool, Option, List}
use webhook_recovery.Core.Enums.{
  SimStatus, DeliveryState, AttemptOutcome, CoalesceMode, ProcessKind,
}

pub record Simulation : Type 0 where
  pub id : ℕ
  pub status : SimStatus
  pub virtual_epoch : ℕ
  pub resumed_at_wall : ℕ
  pub paused_at_virtual : Option ℕ
  pub speed_multiplier : ℕ
  pub fair_drain_enabled : Bool
  pub global_attempts_per_s : ℕ
  pub outage_override : Option Bool

pub record Consumer : Type 0 where
  pub id : ℕ
  pub simulation_id : ℕ
  pub weight : ℕ
  pub concurrency_cap : ℕ
  pub max_attempts_per_s : ℕ

pub record DeliveryPolicy : Type 0 where
  pub simulation_id : ℕ
  pub consumer_id : ℕ
  pub event_type : String
  pub max_staleness_s : Option ℕ
  pub coalesce : CoalesceMode

-- `terminal_reason`: the sentence that the code formats, by the numbers that it formats.
pub data Reason : Type 0 where
  stale : (overage max_staleness_s : ℕ) → Reason
  superseded_by : (delivery_id : ℕ) → Reason
  retry_cap : (attempt_no : ℕ) → Reason
  lease_ran_out : (attempt_count max_attempts : ℕ) → Reason

pub record Delivery : Type 0 where
  pub id : ℕ
  pub simulation_id : ℕ
  pub event_id : ℕ
  pub consumer_id : ℕ
  pub event_type : String
  pub entity_key : String
  pub state : DeliveryState
  pub attempt_count : ℕ
  pub next_attempt_at : Option ℕ
  pub ready_at : Option ℕ
  pub leased_by : Option ℕ
  pub lease_expires_at : Option ℕ
  pub terminal_reason : Option Reason
  pub created_at : ℕ
  pub completed_at : Option ℕ

pub record Attempt : Type 0 where
  pub id : ℕ
  pub simulation_id : ℕ
  pub delivery_id : ℕ
  pub consumer_id : ℕ
  pub worker_id : ℕ
  pub started_at : ℕ
  pub finished_at : Option ℕ
  pub outcome : Option AttemptOutcome
  pub status_code : Option ℕ

pub record Subscription : Type 0 where
  pub simulation_id : ℕ
  pub consumer_id : ℕ
  pub event_type : String

-- The payload is carried and never read, and is left out.
pub record Event : Type 0 where
  pub id : ℕ
  pub simulation_id : ℕ
  pub event_type : String
  pub entity_key : String
  pub occurred_at : ℕ

pub record MetricsSnapshot : Type 0 where
  pub simulation_id : ℕ
  pub consumer_id : ℕ
  pub bucket_virtual_s : ℕ
  pub backlog : ℕ
  pub ready : ℕ
  pub in_flight : ℕ
  pub attempts : ℕ
  pub delivered : ℕ
  pub expired : ℕ
  pub superseded : ℕ
  pub failed : ℕ

pub record Process : Type 0 where
  pub id : ℕ
  pub kind : ProcessKind
  pub started_at_wall : ℕ
  pub last_heartbeat_wall : ℕ
  pub is_leader : Bool
  pub crash_requested : Bool

-- The database: its tables, and the serial numbers that it will give out next.
pub record Store : Type 0 where
  pub simulations : List Simulation
  pub consumers : List Consumer
  pub subscriptions : List Subscription
  pub policies : List DeliveryPolicy
  pub events : List Event
  pub deliveries : List Delivery
  pub attempts : List Attempt
  pub metrics : List MetricsSnapshot
  pub processes : List Process
  pub next_event_id : ℕ
  pub next_delivery_id : ℕ
  pub next_attempt_id : ℕ
