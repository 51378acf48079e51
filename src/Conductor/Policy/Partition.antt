-- ===== src/Conductor/Policy/Partition.antt =====
-- What `evaluate` does with each candidate, against a one-pass description.
use mathlib.Core.List.{Perm, perm_append_comm, perm_middle, append_assoc, map-append}
use mathlib.Core.List.Perm
use webhook_recovery.Prelude.{
  ℕ, ◌≡◌, refl, Bool, true, false, inl, inr, Option, none, some, List, [], ◌∷◌, ◌++◌, map, arith,
  filter, Option-cases,
}
use webhook_recovery.Core.Models.{Delivery}
use webhook_recovery.Conductor.Policy.{
  Key, Candidate, Drop, PolicyMap, policy_of, staleness, split_stale, beaten_by, split_superseded,
  newest_by_key, is_coalescing, candidate_key, evaluate,
}

abbrev ids : List Candidate → List ℕ
ids = map (λ c. c.id)

abbrev drop_ids : List Drop → List ℕ
drop_ids = map (λ drop. drop.delivery_id)

abbrev pub is_none {ℓ} : {A : Type ℓ} → Option A → Bool
is_none none = true
is_none (some a) = false

abbrev pub is_fresh : PolicyMap → ℕ → Candidate → Bool
is_fresh policies now c =
    is_none (staleness now c.created_at (policy_of policies c).max_staleness_s)

abbrev pub is_unbeaten : (Key → Option (ℕ × ℕ)) → Candidate → Bool
is_unbeaten newest c = is_none (beaten_by (newest (candidate_key c)) c)

pub split_stale-filter :
    (policies : PolicyMap) (now : ℕ) (cs : List Candidate)
    → (split_stale policies now cs).1 ≡ filter (is_fresh policies now) cs
unfolding split_stale
split_stale-filter policies now [] = refl
split_stale-filter policies now (c ∷ cs) = ground (arith, split_stale-filter policies now cs)

split_superseded-filter :
    (newest : Key → Option (ℕ × ℕ)) (cs : List Candidate)
    → (split_superseded newest cs).1 ≡ filter (is_unbeaten newest) cs
unfolding split_superseded
split_superseded-filter newest [] = refl
split_superseded-filter newest (c ∷ cs) = ground (arith, split_superseded-filter newest cs)

split_stale-perm :
    (policies : PolicyMap) (now : ℕ) (cs : List Candidate)
    → Perm
        (ids (split_stale policies now cs).1 ++ drop_ids (split_stale policies now cs).0)
        (ids cs)
unfolding split_stale
split_stale-perm policies now [] = Perm.rfl
split_stale-perm policies now (c ∷ cs) =
    let rest = Perm.cons c.id (split_stale-perm policies now cs) in
    elim (Option-cases (staleness now c.created_at (policy_of policies c).max_staleness_s)) [
      | inl e ↦ rw (e, split_stale) rest
      | inr (reason, e) ↦ rw (e, split_stale) (Perm.trans (perm_middle _ _) rest)
    ]

split_superseded-perm :
    (newest : Key → Option (ℕ × ℕ)) (cs : List Candidate)
    → Perm (ids (split_superseded newest cs).1 ++ drop_ids (split_superseded newest cs).0) (ids cs)
unfolding split_superseded
split_superseded-perm newest [] = Perm.rfl
split_superseded-perm newest (c ∷ cs) =
    let rest = Perm.cons c.id (split_superseded-perm newest cs) in
    elim (Option-cases (beaten_by (newest (candidate_key c)) c)) [
      | inl e ↦ rw (e, split_superseded) rest
      | inr (id, e) ↦ rw (e, split_superseded) (Perm.trans (perm_middle _ _) rest)
    ]

perm_rotate : (xs ys zs : List ℕ) → Perm (xs ++ (ys ++ zs)) ((xs ++ zs) ++ ys)
perm_rotate xs ys zs = rw append_assoc (Perm.append_left xs (perm_append_comm ys zs))

module _ (simulation_id : ℕ) (deliveries : List Delivery) (policies : PolicyMap) (now : ℕ) where
  -- The candidates that survive staleness and have a policy that coalesces.
  abbrev pub coalescing : List Candidate → List Candidate
  coalescing cs =
      filter (λ c. is_coalescing (policy_of policies c).coalesce)
        (filter (is_fresh policies now) cs)

  abbrev pub newest : List Candidate → Key → Option (ℕ × ℕ)
  newest cs = newest_by_key simulation_id deliveries (coalescing cs)

  -- The two loops of `evaluate` as filters: what it admits is, in their order, the fresh candidates
  -- that the newest delivery looked up for their key does not beat; a key is looked up where a fresh
  -- candidate of it has a policy that coalesces.
  pub evaluate-admit :
      (cs : List Candidate)
      → (evaluate simulation_id deliveries cs policies now).admit
        ≡ filter (is_unbeaten (newest cs)) (filter (is_fresh policies now) cs)
  unfolding evaluate
  evaluate-admit cs =
      simp (split_stale-filter policies now cs)
        (split_superseded-filter (newest cs) (filter (is_fresh policies now) cs))

  -- Each candidate comes out once: its id is among the admitted or among the dropped, as often as
  -- among the candidates.
  pub evaluate-perm :
      (cs : List Candidate)
      → let v = evaluate simulation_id deliveries cs policies now in
        Perm (ids v.admit ++ drop_ids v.drops) (ids cs)
  unfolding evaluate
  evaluate-perm cs =
      let (stale_drops, survived) = split_stale policies now cs in
      let fresh_coalescing = filter (λ c. is_coalescing (policy_of policies c).coalesce) survived in
      let n = newest_by_key simulation_id deliveries fresh_coalescing in
      let (late, kept) = split_superseded n survived in
      rw (map-append (λ drop. drop.delivery_id) stale_drops late) (
        Perm.trans (perm_rotate (ids kept) (drop_ids stale_drops) (drop_ids late)) (
          Perm.trans (Perm.append_right (drop_ids stale_drops) (split_superseded-perm n survived))
            (split_stale-perm policies now cs)))
