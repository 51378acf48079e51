-- ===== src/Conductor/Policy.antt =====
-- app/conductor/policy.py: which queued deliveries are still worth sending.
pub mod Winner
pub mod Survival
pub mod Partition
pub mod Current
pub mod Written
pub mod Dropped
use webhook_recovery.Prelude.{
  ℕ, ◌+◌, ◌-◌, String, str_eq, Bool, true, false, not, ◌&&◌, ◌||◌, Option, none, some, List, [],
  ◌∷◌, ◌++◌, map, ltb, ◌==◌, if◌then◌else◌, filter, any, execute_many,
}
use webhook_recovery.Core.Enums.{DeliveryState, expired, superseded, CoalesceMode, is_queued}
use webhook_recovery.Core.Models.{DeliveryPolicy, Delivery, Reason, stale, superseded_by}

pub record Policy : Type 0 where
  pub max_staleness_s : Option ℕ
  pub coalesce : CoalesceMode

abbrev pub deliver_everything : Policy
deliver_everything = record { max_staleness_s = none; coalesce = CoalesceMode.none }

-- The dict from `(consumer_id, event_type)`.
abbrev pub PolicyMap : Type 0
PolicyMap = List (ℕ × String × Policy)

-- `policies.get((consumer_id, event_type), DELIVER_EVERYTHING)`
pub get_policy : PolicyMap → ℕ → String → Policy
get_policy [] consumer_id event_type = deliver_everything
get_policy ((c, t, policy) ∷ rest) consumer_id event_type =
    if c == consumer_id && str_eq t event_type
    then policy
    else get_policy rest consumer_id event_type

pub record Candidate : Type 0 where
  pub id : ℕ
  pub consumer_id : ℕ
  pub event_type : String
  pub entity_key : String
  pub created_at : ℕ

-- `Candidate(*row)`, on the columns that the candidate queries select.
abbrev pub as_candidate : Delivery → Candidate
as_candidate d = record {
  id = d.id;
  consumer_id = d.consumer_id;
  event_type = d.event_type;
  entity_key = d.entity_key;
  created_at = d.created_at;
}

pub record Drop : Type 0 where
  pub delivery_id : ℕ
  pub state : DeliveryState
  pub reason : Reason

pub record Verdict : Type 0 where
  pub admit : List Candidate
  pub drops : List Drop

-- `(consumer_id, event_type)` is unique in the table, so no key comes twice.
pub load_policies : List DeliveryPolicy → ℕ → PolicyMap
load_policies rows simulation_id =
    map
      (λ row. (
        row.consumer_id,
        row.event_type,
        record { max_staleness_s = row.max_staleness_s; coalesce = row.coalesce },
      ))
      (filter (λ row. row.simulation_id == simulation_id) rows)

-- The time past the bound, if there is a bound and it is past.
pub stale_by : ℕ → ℕ → Option ℕ → Option ℕ
stale_by now created_at none = none
stale_by now created_at (some max_staleness_s) =
    if ltb (created_at + max_staleness_s) now
    then some (now - created_at - max_staleness_s)
    else none

-- `stale_by` with its `stale_reason`, which is only formatted where there is a bound.
unfoldable pub staleness : ℕ → ℕ → Option ℕ → Option Reason
unfolding stale_by
staleness now created_at none = none
staleness now created_at (some max_staleness_s) =
    elim (stale_by now created_at (some max_staleness_s)) [
      | none ↦ none
      | some overage ↦ some (stale overage max_staleness_s)
    ]

pub policy_of : PolicyMap → Candidate → Policy
policy_of policies c = get_policy policies c.consumer_id c.event_type

abbrev pub expire : Candidate → Reason → Drop
expire c reason = record { delivery_id = c.id; state = expired; reason = reason }

-- The first loop of `evaluate`: what is dropped as stale, and what survives.
pub split_stale : PolicyMap → ℕ → List Candidate → List Drop × List Candidate
unfolding staleness
split_stale policies now [] = ([], [])
split_stale policies now (c ∷ cs) =
    let (drops, survived) = split_stale policies now cs in
    elim (staleness now c.created_at (policy_of policies c).max_staleness_s) [
      | none ↦ (drops, c ∷ survived)
      | some reason ↦ (expire c reason ∷ drops, survived)
    ]

abbrev pub is_coalescing : CoalesceMode → Bool
is_coalescing CoalesceMode.latest_by_key = true
is_coalescing CoalesceMode.none = false

-- `(consumer_id, event_type, entity_key)`
pub record Key : Type 0 where
  pub consumer_id : ℕ
  pub event_type : String
  pub entity_key : String

abbrev pub candidate_key : Candidate → Key
candidate_key c = record {
  consumer_id = c.consumer_id;
  event_type = c.event_type;
  entity_key = c.entity_key;
}

abbrev pub delivery_key : Delivery → Key
delivery_key d = record {
  consumer_id = d.consumer_id;
  event_type = d.event_type;
  entity_key = d.entity_key;
}

pub same_key : Key → Key → Bool
same_key a b =
    a.consumer_id == b.consumer_id
    && (str_eq a.event_type b.event_type && str_eq a.entity_key b.entity_key)

-- The order on `(created_at, id)`.
pub before : ℕ × ℕ → ℕ × ℕ → Bool
before (created, id) (created', id') = ltb created created' || (created == created' && ltb id id')

later_of : Option (ℕ × ℕ) → ℕ × ℕ → Option (ℕ × ℕ)
later_of none p = some p
later_of (some q) p = if before q p then some p else some q

abbrev pub is_rival : ℕ → Key → Delivery → Bool
is_rival simulation_id key d =
    d.simulation_id == simulation_id && (is_queued d.state && same_key (delivery_key d) key)

-- `DISTINCT ON (key) ... ORDER BY created_at DESC, id DESC`, at one key.
pub winner : ℕ → List Delivery → Key → Option (ℕ × ℕ)
unfolding later_of before same_key
winner simulation_id [] key = none
winner simulation_id (d ∷ ds) key =
    let rest = winner simulation_id ds key in
    if is_rival simulation_id key d then later_of rest (d.created_at, d.id) else rest

-- The dict of `_newest_by_key`, as the function that its `get` is: only the keys of the candidates
-- are in it.
pub newest_by_key : ℕ → List Delivery → List Candidate → Key → Option (ℕ × ℕ)
unfolding winner same_key
newest_by_key simulation_id deliveries candidates key =
    if any (λ c. same_key (candidate_key c) key) candidates
    then winner simulation_id deliveries key
    else none

abbrev pub supersede : Candidate → ℕ → Drop
supersede c id = record { delivery_id = c.id; state = superseded; reason = superseded_by id }

-- The winner that a candidate loses to, if it does.
pub beaten_by : Option (ℕ × ℕ) → Candidate → Option ℕ
unfolding before
beaten_by none c = none
beaten_by (some (created, id)) c =
    if before (c.created_at, c.id) (created, id) then some id else none

-- The second loop of `evaluate`.
pub split_superseded : (Key → Option (ℕ × ℕ)) → List Candidate → List Drop × List Candidate
unfolding beaten_by
split_superseded newest [] = ([], [])
split_superseded newest (c ∷ cs) =
    let (drops, admit) = split_superseded newest cs in
    elim (beaten_by (newest (candidate_key c)) c) [
      | none ↦ (drops, c ∷ admit)
      | some id ↦ (supersede c id ∷ drops, admit)
    ]

pub evaluate : ℕ → List Delivery → List Candidate → PolicyMap → ℕ → Verdict
unfolding split_stale newest_by_key split_superseded policy_of get_policy
evaluate simulation_id deliveries candidates policies now =
    let (stale_drops, survived) = split_stale policies now candidates in
    let coalescing = filter (λ c. is_coalescing (policy_of policies c).coalesce) survived in
    let (superseded_drops, admit) =
      split_superseded (newest_by_key simulation_id deliveries coalescing) survived in
    record { admit = admit; drops = stale_drops ++ superseded_drops }

-- `by_state.setdefault(drop.state, []).append(...)`, over the two states that a drop can have.
abbrev pub is_expired_drop : Drop → Bool
is_expired_drop drop = elim drop.state [ DeliveryState.expired ↦ true | _ ↦ false ]

abbrev pub by_state : List Drop → List Drop
by_state drops = filter is_expired_drop drops ++ filter (λ drop. not (is_expired_drop drop)) drops

abbrev pub settle_drop : ℕ → Drop → Delivery → Delivery
settle_drop now drop d = record d {
  state = drop.state;
  completed_at = some now;
  terminal_reason = some drop.reason;
}

pub apply_drops : List Drop → ℕ → List Delivery → List Delivery
apply_drops drops now =
    execute_many (λ drop d. d.id == drop.delivery_id) (settle_drop now) (by_state drops)
