-- ===== src/Worker/Claim.antt =====
-- app/worker/claim.py, `claim_batch`: take ready deliveries, expire the stale ones, lease the rest
-- and record that their attempts have started.
pub mod Exclusive
pub mod Rows
use webhook_recovery.Prelude.{
  ℕ, zero, suc, ◌+◌, String, str_eq, Bool, true, false, not, ◌&&◌, Option, none, some, List, [],
  ◌∷◌, ◌++◌, map, ltb, leb, ◌==◌, if◌then◌else◌, filter, any, elem, update_where, execute_many,
  take, order_by, length,
}
use webhook_recovery.Core.Enums.{expired, in_flight, is_ready}
use webhook_recovery.Core.Settings.{Settings}
use webhook_recovery.Core.Models.{Store, DeliveryPolicy, Delivery, Attempt, Reason}
use webhook_recovery.Conductor.Policy.{staleness}

-- What a worker holds of a claimed delivery. The transport's profile of the consumer is left out.
pub record Claimed : Type 0 where
  pub delivery_id : ℕ
  pub consumer_id : ℕ
  pub attempt_no : ℕ
  pub attempt_id : ℕ

-- The outer join on the policy of the consumer and the event type, of which it reads one column.
abbrev pub joined_bound : List DeliveryPolicy → Delivery → Option ℕ
joined_bound [] d = none
joined_bound (p ∷ ps) d =
    if p.consumer_id == d.consumer_id && str_eq p.event_type d.event_type
    then p.max_staleness_s
    else joined_bound ps d

-- `ORDER BY ready_at` puts NULL last.
abbrev ready_order : Delivery → ℕ
ready_order d = elim d.ready_at [ none ↦ 0 | some at ↦ at ]

abbrev unready : Delivery → ℕ
unready d = elim d.ready_at [ none ↦ 1 | some at ↦ 0 ]

abbrev by_ready : List Delivery → List Delivery
by_ready ds = order_by unready (order_by ready_order ds)

-- `locked` says which rows another transaction holds: they are skipped, before the limit counts.
unfoldable pub claimable : ℕ → (ℕ → Bool) → ℕ → List Delivery → List Delivery
claimable simulation_id locked limit deliveries = take limit (
    filter (λ d. not (locked d.id))
      (by_ready (filter (λ d. d.simulation_id == simulation_id && is_ready d.state) deliveries)))

-- `_split_stale`: what is still worth sending, and what has gone stale, with the reason.
unfoldable pub split_stale :
    List DeliveryPolicy → ℕ → List Delivery → List Delivery × List (ℕ × Reason)
split_stale policies now [] = ([], [])
split_stale policies now (d ∷ ds) =
    let (live, gone) = split_stale policies now ds in
    elim (staleness now d.created_at (joined_bound policies d)) [
      | none ↦ (d ∷ live, gone)
      | some reason ↦ (live, (d.id, reason) ∷ gone)
    ]

abbrev pub expire_row : ℕ → ℕ × Reason → Delivery → Delivery
expire_row now (id, reason) d = record d {
  state = expired;
  completed_at = some now;
  terminal_reason = some reason;
}

-- `_expire`
unfoldable pub expire : ℕ → List (ℕ × Reason) → List Delivery → List Delivery
expire now gone = execute_many (λ (id, reason) d. d.id == id) (expire_row now) gone

abbrev pub lease_row : ℕ → ℕ → Delivery → Delivery
lease_row worker_id lease_expires_at d = record d {
  state = in_flight;
  leased_by = some worker_id;
  lease_expires_at = some lease_expires_at;
  attempt_count = d.attempt_count + 1;
}

unfoldable pub lease : ℕ → ℕ → List ℕ → List Delivery → List Delivery
lease worker_id lease_expires_at delivery_ids =
    update_where (λ d. elem d.id delivery_ids) (lease_row worker_id lease_expires_at)

abbrev pub new_attempt : ℕ → ℕ → ℕ → ℕ → Delivery → Attempt
new_attempt simulation_id worker_id now id d = record {
  id = id;
  simulation_id = simulation_id;
  delivery_id = d.id;
  consumer_id = d.consumer_id;
  worker_id = worker_id;
  started_at = now;
  finished_at = none;
  outcome = none;
  status_code = none;
}

-- `_insert_attempts`: the rows inserted, with the serial numbers that the database gives them.
unfoldable pub insert_attempts : ℕ → ℕ → ℕ → ℕ → List Delivery → List Attempt
insert_attempts simulation_id worker_id now next [] = []
insert_attempts simulation_id worker_id now next (d ∷ ds) =
    new_attempt simulation_id worker_id now next d
    ∷ insert_attempts simulation_id worker_id now (next + 1) ds

-- The result list: each row with the attempt number that the statement has just written.
unfoldable pub claims : ℕ → List Delivery → List Claimed
claims next [] = []
claims next (d ∷ ds) =
    record {
      delivery_id = d.id;
      consumer_id = d.consumer_id;
      attempt_no = d.attempt_count + 1;
      attempt_id = next;
    }
    ∷ claims (next + 1) ds

-- With no live row the last two statements of the source are not run: over no row they write nothing.
unfoldable pub claim_batch : Settings → ℕ → ℕ → ℕ → ℕ → (ℕ → Bool) → Store → Store × List Claimed
unfolding claimable split_stale expire lease insert_attempts claims
claim_batch settings simulation_id worker_id now limit locked store =
    let rows = claimable simulation_id locked limit store.deliveries in
    let (live, gone) = split_stale store.policies now rows in
    let expires_at = now + settings.lease_duration_virtual_s in
    (
      record store {
        deliveries =
            lease worker_id expires_at (map (λ d. d.id) live) (expire now gone store.deliveries);
        attempts =
            store.attempts
            ++ insert_attempts simulation_id worker_id now store.next_attempt_id live;
        next_attempt_id = store.next_attempt_id + length live;
      },
      claims store.next_attempt_id live,
    )
