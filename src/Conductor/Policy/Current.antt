-- ===== src/Conductor/Policy/Current.antt =====
-- What `evaluate` admits, against a description that looks at the table alone.
use mathlib.Core.List.{Memᴰ}
use mathlib.Core.List.Memᴰ.{head, tail}
use webhook_recovery.Prelude.{
  ℕ, ◌+◌, ◌≡◌, refl, ◌∙◌, sym, str_eq, str_eq_iff, inl, inr, Bool, true, false, not, ◌&&◌, ◌||◌,
  Option, none, some, List, [], ◌∷◌, arith, any, filter, ltb, leb, ◌==◌, if◌then◌else◌, Bool-cases,
}
use webhook_recovery.Core.Enums.{is_queued, CoalesceMode}
use webhook_recovery.Core.Models.{Delivery}
use webhook_recovery.Conductor.Policy.{
  Policy, Candidate, PolicyMap, before, later_of, winner, policy_of, staleness, beaten_by,
  candidate_key, same_key, is_coalescing, newest_by_key, evaluate,
}
use webhook_recovery.Conductor.Policy.Survival.{coalescing_key}
use webhook_recovery.Conductor.Policy.Partition.{
  is_none, is_fresh, is_unbeaten, coalescing, newest, evaluate-admit,
}

-- The event is not past the bound, if there is one.
abbrev pub in_time : Option ℕ → ℕ → ℕ → Bool
in_time none now created_at = true
in_time (some max_staleness_s) now created_at = leb now (created_at + max_staleness_s)

-- A delivery of the simulation that is queued, of the candidate's consumer, event type and entity, and
-- later than the candidate: created after it, or at the same time with a greater id.
abbrev pub outdates : ℕ → Candidate → Delivery → Bool
outdates simulation_id c d =
    (d.simulation_id == simulation_id
      && (is_queued d.state
          && (d.consumer_id == c.consumer_id
              && (str_eq d.event_type c.event_type && str_eq d.entity_key c.entity_key))))
    && (ltb c.created_at d.created_at || (c.created_at == d.created_at && ltb c.id d.id))

-- Worth sending under its policy.
abbrev pub is_current : ℕ → List Delivery → Policy → ℕ → Candidate → Bool
is_current simulation_id deliveries policy now c =
    in_time policy.max_staleness_s now c.created_at && elim policy.coalesce [
      | CoalesceMode.none ↦ true
      | CoalesceMode.latest_by_key ↦ not (any (outdates simulation_id c) deliveries)
    ]

later_of-beaten :
    (o : Option (ℕ × ℕ)) (p : ℕ × ℕ) (c : Candidate)
    → is_none (beaten_by (later_of o p) c)
      ≡ (is_none (beaten_by o c) && not (before (c.created_at, c.id) p))
unfolding later_of beaten_by before
later_of-beaten none (a, i) c = ground arith
later_of-beaten (some (b, j)) (a, i) c = ground arith

winner-outdates :
    (simulation_id : ℕ) (ds : List Delivery) (c : Candidate)
    → is_none (beaten_by (winner simulation_id ds (candidate_key c)) c)
      ≡ not (any (outdates simulation_id c) ds)
unfolding winner before same_key beaten_by
winner-outdates simulation_id [] c = refl
winner-outdates simulation_id (d ∷ ds) c = ground (
  arith,
  winner-outdates simulation_id ds c,
  later_of-beaten (winner simulation_id ds (candidate_key c)) (d.created_at, d.id) c,
)

staleness-in_time :
    (now created_at : ℕ) (bound : Option ℕ)
    → is_none (staleness now created_at bound) ≡ in_time bound now created_at
unfolding staleness
staleness-in_time now created_at none = refl
staleness-in_time now created_at (some m) = ground arith

filter_twice :
    (p q r : Candidate → Bool) (cs : List Candidate)
    → ((c : Candidate) → Memᴰ c cs → p c ≡ true → q c ≡ r c)
    → ((c : Candidate) → Memᴰ c cs → p c ≡ false → r c ≡ false)
    → filter q (filter p cs) ≡ filter r cs
filter_twice p q r [] h k = refl
filter_twice p q r (c ∷ cs) h k =
    let rest = filter_twice p q r cs (λ x m. h x (tail m)) (λ x m. k x (tail m)) in
    ground (arith, rest, h c (head refl), k c (head refl))

module _ (simulation_id : ℕ) (deliveries : List Delivery) (policies : PolicyMap) (now : ℕ) where
  own_key : (c : Candidate) → same_key (candidate_key c) (candidate_key c) ≡ true
  unfolding same_key
  own_key c =
      ground (arith, str_eq_iff c.event_type c.event_type, str_eq_iff c.entity_key c.entity_key)

  -- A fresh candidate whose policy coalesces is among those whose keys are looked up.
  looked_up :
      (cs : List Candidate) (c : Candidate)
      → Memᴰ c cs
      → is_fresh policies now c ≡ true
      → is_coalescing (policy_of policies c).coalesce ≡ true
      → any
          (λ x. same_key (candidate_key x) (candidate_key c))
          (coalescing simulation_id deliveries policies now cs)
        ≡ true
  looked_up [] c m f h = elim m [ ]
  looked_up (x ∷ cs) c (head e) f h = rw (← e, f, h, own_key c) refl
  looked_up (x ∷ cs) c (tail m) f h = ground (arith, looked_up cs c m f h)

  not_looked_up :
      (cs : List Candidate) (c : Candidate)
      → is_coalescing (policy_of policies c).coalesce ≡ false
      → any
          (λ x. same_key (candidate_key x) (candidate_key c))
          (coalescing simulation_id deliveries policies now cs)
        ≡ false
  unfolding policy_of
  not_looked_up cs c h =
      let keys = coalescing simulation_id deliveries policies now cs in
      elim (Bool-cases (any (λ x. same_key (candidate_key x) (candidate_key c)) keys)) [
        | inr k ↦ k
        | inl k ↦
            let one =
              coalescing_key policies (candidate_key c) (filter (is_fresh policies now) cs) k in
            let bad : true ≡ false = sym one ∙ h in cc
      ]

  abbrev current : Candidate → Bool
  current c = is_current simulation_id deliveries (policy_of policies c) now c

  by_mode :
      (mode : CoalesceMode) (looked late : Bool) (o : Option (ℕ × ℕ)) (c : Candidate)
      → (is_coalescing mode ≡ true → looked ≡ true)
      → (is_coalescing mode ≡ false → looked ≡ false)
      → is_none (beaten_by o c) ≡ not late
      → is_none (beaten_by (if looked then o else none) c)
        ≡ elim mode [ CoalesceMode.none ↦ true | CoalesceMode.latest_by_key ↦ not late ]
  unfolding beaten_by
  by_mode CoalesceMode.none looked late o c h k w = rw (k refl) refl
  by_mode CoalesceMode.latest_by_key looked late o c h k w = rw (h refl) w

  fresh-current :
      (cs : List Candidate) (c : Candidate)
      → Memᴰ c cs
      → is_fresh policies now c ≡ true
      → is_unbeaten (newest simulation_id deliveries policies now cs) c ≡ current c
  unfolding newest_by_key
  fresh-current cs c m f =
      let policy = policy_of policies c in
      let timely : in_time policy.max_staleness_s now c.created_at ≡ true =
        sym (staleness-in_time now c.created_at policy.max_staleness_s) ∙ f in
      rw timely (
        by_mode policy.coalesce _ (any (outdates simulation_id c) deliveries)
          (winner simulation_id deliveries (candidate_key c)) c (looked_up cs c m f)
          (not_looked_up cs c) (winner-outdates simulation_id deliveries c))

  stale-current : (c : Candidate) → is_fresh policies now c ≡ false → current c ≡ false
  stale-current c h =
      let policy = policy_of policies c in
      let late : in_time policy.max_staleness_s now c.created_at ≡ false =
        sym (staleness-in_time now c.created_at policy.max_staleness_s) ∙ h in
      rw late refl

  -- `evaluate` admits, in their order, exactly the candidates that are not past the bound of their
  -- policy and, where that policy coalesces, have no queued delivery of their simulation, consumer,
  -- event type and entity later than they are.
  pub evaluate-is_current :
      (cs : List Candidate)
      → (evaluate simulation_id deliveries cs policies now).admit
        ≡ filter (λ c. is_current simulation_id deliveries (policy_of policies c) now c) cs
  evaluate-is_current cs =
      evaluate-admit simulation_id deliveries policies now cs
      ∙ filter_twice (is_fresh policies now)
          (is_unbeaten (newest simulation_id deliveries policies now cs)) current cs
          (fresh-current cs) (λ c m. stale-current c)
