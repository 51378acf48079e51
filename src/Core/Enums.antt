-- ===== src/Core/Enums.antt =====
-- app/core/enums.py: a `StrEnum` is a data type. Columns that hold its text hold the constructor.
use webhook_recovery.Prelude.{Bool, true, false}

pub data SimStatus : Type 0 where
  running paused done : SimStatus

pub data DeliveryState : Type 0 where
  pending ready in_flight delivered expired superseded failed : DeliveryState

pub data AttemptOutcome : Type 0 where
  ok server_error timeout lease_expired : AttemptOutcome

pub data CoalesceMode : Type 0 where
  none latest_by_key : CoalesceMode

pub data ProcessKind : Type 0 where
  conductor worker : ProcessKind

abbrev pub is_running : SimStatus → Bool
is_running running = true
is_running _ = false

abbrev pub is_paused : SimStatus → Bool
is_paused paused = true
is_paused _ = false

abbrev pub is_done : SimStatus → Bool
is_done done = true
is_done _ = false

abbrev pub is_pending : DeliveryState → Bool
is_pending pending = true
is_pending _ = false

abbrev pub is_ready : DeliveryState → Bool
is_ready ready = true
is_ready _ = false

abbrev pub is_in_flight : DeliveryState → Bool
is_in_flight in_flight = true
is_in_flight _ = false

-- `state in (pending, ready)`: queued, and so still to be superseded.
abbrev pub is_queued : DeliveryState → Bool
is_queued pending = true
is_queued ready = true
is_queued _ = false

-- `ACTIVE_DELIVERY_STATES`
abbrev pub is_active : DeliveryState → Bool
is_active pending = true
is_active ready = true
is_active in_flight = true
is_active _ = false

-- `TERMINAL_DELIVERY_STATES`
abbrev pub is_terminal : DeliveryState → Bool
is_terminal delivered = true
is_terminal expired = true
is_terminal superseded = true
is_terminal failed = true
is_terminal _ = false

-- `==` on two states.
abbrev pub state_eq : DeliveryState → DeliveryState → Bool
state_eq pending pending = true
state_eq ready ready = true
state_eq in_flight in_flight = true
state_eq delivered delivered = true
state_eq expired expired = true
state_eq superseded superseded = true
state_eq failed failed = true
state_eq _ _ = false
