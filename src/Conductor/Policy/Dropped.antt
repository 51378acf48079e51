-- ===== src/Conductor/Policy/Dropped.antt =====
-- No candidate that `evaluate` drops is one that it admits.
use mathlib.Core.List.{Memᴰ}
use mathlib.Core.List.Memᴰ.{head, tail}
use webhook_recovery.Prelude.{
  ℕ, ◌≡◌, refl, Bool, true, false, ◌&&◌, inl, inr, Option, List, [], ◌∷◌, arith, filter, All,
  All-mono, All-append, Option-cases, Bool-cases, subst,
}
use webhook_recovery.Core.Enums.{DeliveryState, expired, superseded}
use webhook_recovery.Core.Models.{Delivery}
use webhook_recovery.Conductor.Policy.{
  Key, Candidate, Drop, PolicyMap, policy_of, staleness, split_stale, beaten_by, split_superseded,
  newest_by_key, is_coalescing, candidate_key, evaluate,
}
use webhook_recovery.Conductor.Policy.Survival.{kept}
use webhook_recovery.Conductor.Policy.Partition.{is_fresh, is_unbeaten, newest, split_stale-filter}

-- The two states that a drop can have.
abbrev pub is_drop : DeliveryState → Bool
is_drop expired = true
is_drop superseded = true
is_drop _ = false

-- A drop is of a candidate that a test fails.
pub record IsDropOf (test : Candidate → Bool) (cs : List Candidate) (drop : Drop) : Type 0 where
  pub candidate : Candidate
  pub listed : Memᴰ candidate cs
  pub named : drop.delivery_id ≡ candidate.id
  pub ends : is_drop drop.state ≡ true
  pub failed : test candidate ≡ false

wider :
    (test test' : Candidate → Bool) (cs cs' : List Candidate)
    → ((c : Candidate) → Memᴰ c cs → Memᴰ c cs')
    → ((c : Candidate) → test c ≡ false → test' c ≡ false)
    → (drop : Drop) → IsDropOf test cs drop
    → IsDropOf test' cs' drop
wider test test' cs cs' f g drop h = record {
  candidate = h.candidate;
  listed = f h.candidate h.listed;
  named = h.named;
  ends = h.ends;
  failed = g h.candidate h.failed;
}

split_stale-IsDropOf :
    (policies : PolicyMap) (now : ℕ) (cs : List Candidate)
    → All (IsDropOf (is_fresh policies now) cs) (split_stale policies now cs).0
unfolding split_stale
split_stale-IsDropOf policies now [] = tt
split_stale-IsDropOf policies now (c ∷ cs) =
    let test = is_fresh policies now in
    let rest =
      All-mono (IsDropOf test cs) (IsDropOf test (c ∷ cs))
        (wider test test cs (c ∷ cs) (λ x m. tail m) (λ x e. e)) _
        (split_stale-IsDropOf policies now cs) in
    elim (Option-cases (staleness now c.created_at (policy_of policies c).max_staleness_s)) [
      | inl e ↦ rw (e, split_stale) rest
      | inr (reason, e) ↦
          rw (e, split_stale)
            (
              record {
                candidate = c;
                listed = head refl;
                named = refl;
                ends = refl;
                failed = rw e refl;
              },
              rest,
            )
    ]

split_superseded-IsDropOf :
    (newest : Key → Option (ℕ × ℕ)) (cs : List Candidate)
    → All (IsDropOf (is_unbeaten newest) cs) (split_superseded newest cs).0
unfolding split_superseded
split_superseded-IsDropOf newest [] = tt
split_superseded-IsDropOf newest (c ∷ cs) =
    let test = is_unbeaten newest in
    let rest =
      All-mono (IsDropOf test cs) (IsDropOf test (c ∷ cs))
        (wider test test cs (c ∷ cs) (λ x m. tail m) (λ x e. e)) _
        (split_superseded-IsDropOf newest cs) in
    elim (Option-cases (beaten_by (newest (candidate_key c)) c)) [
      | inl e ↦ rw (e, split_superseded) rest
      | inr (id, e) ↦
          rw (e, split_superseded)
            (
              record {
                candidate = c;
                listed = head refl;
                named = refl;
                ends = refl;
                failed = rw e refl;
              },
              rest,
            )
    ]

Memᴰ-filter :
    (p : Candidate → Bool) (c : Candidate) (cs : List Candidate) → Memᴰ c (filter p cs) → Memᴰ c cs
Memᴰ-filter p c [] m = m
Memᴰ-filter p c (x ∷ cs) m = elim (Bool-cases (p x)) [
  | inl e ↦ kept x cs c (Memᴰ-filter p c cs) (rw e at m)
  | inr e ↦ tail (Memᴰ-filter p c cs (rw e at m))
]

module _ (simulation_id : ℕ) (deliveries : List Delivery) (policies : PolicyMap) (now : ℕ) where
  -- Fresh, and beaten by no later delivery of its key.
  abbrev pub is_admissible : List Candidate → Candidate → Bool
  is_admissible cs c =
      is_fresh policies now c && is_unbeaten (newest simulation_id deliveries policies now cs) c

  pub evaluate-IsDropOf :
      (cs : List Candidate)
      → All
          (IsDropOf (is_admissible cs) cs)
          (evaluate simulation_id deliveries cs policies now).drops
  unfolding evaluate
  evaluate-IsDropOf cs =
      let (stale_ones, survived) = split_stale policies now cs in
      let n =
        newest_by_key simulation_id deliveries
          (filter (λ c. is_coalescing (policy_of policies c).coalesce) survived) in
      All-append (IsDropOf (is_admissible cs) cs) stale_ones _
        (All-mono (IsDropOf (is_fresh policies now) cs) (IsDropOf (is_admissible cs) cs)
          (wider (is_fresh policies now) (is_admissible cs) cs cs (λ x m. m) (λ x e. rw e refl)) _
          (split_stale-IsDropOf policies now cs))
        (All-mono (IsDropOf (is_unbeaten n) survived) (IsDropOf (is_admissible cs) cs)
          (wider (is_unbeaten n) (is_admissible cs) survived cs
            (λ x m.
              Memᴰ-filter (is_fresh policies now) x cs
                (subst (Memᴰ x) (split_stale-filter policies now cs) m))
            (λ x e.
              let e' : is_unbeaten (newest simulation_id deliveries policies now cs) x ≡ false =
                subst
                  (λ ys.
                    is_unbeaten
                      (newest_by_key simulation_id deliveries
                        (filter (λ c. is_coalescing (policy_of policies c).coalesce) ys))
                      x
                    ≡ false)
                  (split_stale-filter policies now cs) e in
              ground (arith, e')))
          _ (split_superseded-IsDropOf n survived))
