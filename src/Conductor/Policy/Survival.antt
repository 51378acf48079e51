-- ===== src/Conductor/Policy/Survival.antt =====
-- Why `evaluate` drops what it drops, and that supersession never loses a key.
use mathlib.Core.List.{Memᴰ}
use mathlib.Core.List.Memᴰ.{head, tail}
use webhook_recovery.Prelude.{
  ℕ, ◌+◌, ◌-◌, ◌≤◌, ◌<◌, str_eq_iff, ◌≡◌, refl, ap, subst, ◌⊎◌, inl, inr, true, Option, none, some,
  List, [], ◌∷◌, arith, any, filter, All, All-mono, All-append, Option-cases,
}
use webhook_recovery.Core.Models.{Delivery, Reason, stale}
use webhook_recovery.Conductor.Policy.{
  Key, Candidate, as_candidate, Drop, PolicyMap, before, is_rival, winner, get_policy, policy_of,
  staleness, beaten_by, candidate_key, same_key, is_coalescing, newest_by_key, split_stale,
  split_superseded, evaluate, expire, supersede,
}
use webhook_recovery.Conductor.Policy.Winner.{stamp, before_irrefl, winner_row}

-- A newer event is no staler.
staleness_mono :
    (now older newer : ℕ) (bound : Option ℕ)
    → older ≤ newer
    → staleness now older bound ≡ none
    → staleness now newer bound ≡ none
unfolding staleness
staleness_mono now older newer none h e = refl
staleness_mono now older newer (some m) h e = ground arith

staleness-some :
    (now created : ℕ) (bound : Option ℕ) (reason : Reason)
    → staleness now created bound ≡ some reason
    → (m : ℕ) × (bound ≡ some m) × (created + m < now) × (reason ≡ stale (now - created - m) m)
unfolding staleness
staleness-some now created none reason h = cc
staleness-some now created (some m) reason h = (m, refl, ground arith, ground arith)

before-le : (p q : ℕ × ℕ) → before p q ≡ true → p.0 ≤ q.0
unfolding before
before-le (a, i) (b, j) h = ground arith

beaten_by-some :
    (o : Option (ℕ × ℕ)) (c : Candidate) (id : ℕ)
    → beaten_by o c ≡ some id
    → (p : ℕ × ℕ) × (o ≡ some p) × (p.1 ≡ id) × (before (c.created_at, c.id) p ≡ true)
unfolding beaten_by
beaten_by-some none c id h = cc
beaten_by-some (some (created, i)) c id h = ((created, i), refl, ground arith, ground arith)

policy_of_key :
    (policies : PolicyMap) (c : Candidate) (key : Key)
    → same_key (candidate_key c) key ≡ true
    → policy_of policies c ≡ get_policy policies key.consumer_id key.event_type
unfolding same_key policy_of
policy_of_key policies c key h = ground (arith, str_eq_iff c.event_type key.event_type)

-- A key that a coalescing candidate has belongs to a policy that coalesces.
pub coalescing_key :
    (policies : PolicyMap) (key : Key) (cs : List Candidate)
    → any
        (λ c. same_key (candidate_key c) key)
        (filter (λ c. is_coalescing (policy_of policies c).coalesce) cs)
      ≡ true
    → is_coalescing (get_policy policies key.consumer_id key.event_type).coalesce ≡ true
coalescing_key policies key [] h = cc
coalescing_key policies key (c ∷ cs) h =
    ground (arith, policy_of_key policies c key, coalescing_key policies key cs)

newest_by_key-some :
    (simulation_id : ℕ) (ds : List Delivery) (cs : List Candidate) (key : Key) (p : ℕ × ℕ)
    → newest_by_key simulation_id ds cs key ≡ some p
    → (winner simulation_id ds key ≡ some p) × (any (λ c. same_key (candidate_key c) key) cs ≡ true)
unfolding newest_by_key
newest_by_key-some simulation_id ds cs key p h = (ground arith, ground arith)

pub kept :
    (x : Candidate) (cs : List Candidate) (c : Candidate) {survived : List Candidate}
    → (Memᴰ c survived → Memᴰ c cs)
    → Memᴰ c (x ∷ survived)
    → Memᴰ c (x ∷ cs)
kept x cs c f (head e) = head e
kept x cs c f (tail m) = tail (f m)

module _ (simulation_id : ℕ) (deliveries : List Delivery) (policies : PolicyMap) (now : ℕ) where
  -- The event is past the bound of its consumer's policy, and the reason says by how much.
  pub record IsStale (c : Candidate) (drop : Drop) : Type 0 where
    pub bound : ℕ
    pub has_bound : (policy_of policies c).max_staleness_s ≡ some bound
    pub past : c.created_at + bound < now
    pub recorded : drop ≡ expire c (stale (now - c.created_at - bound) bound)

  -- The consumer's policy coalesces, and a queued delivery of the same key is later: one that is
  -- not stale under that policy, and that no queued delivery of the key beats.
  pub record IsOutlived (c : Candidate) (drop : Drop) : Type 0 where
    pub heir : Delivery
    pub listed : Memᴰ heir deliveries
    pub rival : is_rival simulation_id (candidate_key c) heir ≡ true
    pub later : before (c.created_at, c.id) (stamp heir) ≡ true
    pub coalesces : is_coalescing (policy_of policies c).coalesce ≡ true
    pub fresh : staleness now heir.created_at (policy_of policies c).max_staleness_s ≡ none
    pub unbeaten :
        beaten_by (winner simulation_id deliveries (candidate_key c)) (as_candidate heir) ≡ none
    pub recorded : drop ≡ supersede c heir.id

  abbrev pub IsJustified : List Candidate → Drop → Type 0
  IsJustified cs drop = (c : Candidate) × Memᴰ c cs × (IsStale c drop ⊎ IsOutlived c drop)

  weaken :
      (c : Candidate) (cs : List Candidate) (drop : Drop)
      → IsJustified cs drop
      → IsJustified (c ∷ cs) drop
  weaken c cs drop (x, m, why) = (x, tail m, why)

  stale_drops : (cs : List Candidate) → All (IsJustified cs) (split_stale policies now cs).0
  unfolding split_stale
  stale_drops [] = tt
  stale_drops (c ∷ cs) =
      let rest =
        All-mono (IsJustified cs) (IsJustified (c ∷ cs)) (weaken c cs) _ (stale_drops cs) in
      let bound = (policy_of policies c).max_staleness_s in
      elim (Option-cases (staleness now c.created_at bound)) [
        | inl e ↦ rw (e, split_stale) rest
        | inr (reason, e) ↦
            let (m, has, past, said) = staleness-some now c.created_at bound reason e in
            rw (e, split_stale)
              (
                (
                  c,
                  head refl,
                  inl (record {
                    bound = m;
                    has_bound = has;
                    past = past;
                    recorded = ap (expire c) said;
                  }),
                ),
                rest,
              )
      ]

  -- The candidates that the second loop sees are fresh.
  abbrev Fresh : Candidate → Type 0
  Fresh c = staleness now c.created_at (policy_of policies c).max_staleness_s ≡ none

  split_stale-Fresh : (cs : List Candidate) → All Fresh (split_stale policies now cs).1
  unfolding split_stale
  split_stale-Fresh [] = tt
  split_stale-Fresh (c ∷ cs) =
      elim (Option-cases (staleness now c.created_at (policy_of policies c).max_staleness_s)) [
        | inl e ↦ rw (e, split_stale) (e, split_stale-Fresh cs)
        | inr (reason, e) ↦ rw (e, split_stale) (split_stale-Fresh cs)
      ]

  IsOutlived-by :
      (c : Candidate) (p : ℕ × ℕ) (d : Delivery)
      → Fresh c
      → Memᴰ d deliveries
      → is_rival simulation_id (candidate_key c) d ≡ true
      → is_coalescing (policy_of policies c).coalesce ≡ true
      → winner simulation_id deliveries (candidate_key c) ≡ some p
      → before (c.created_at, c.id) p ≡ true
      → p ≡ stamp d
      → IsOutlived c (supersede c p.1)
  unfolding beaten_by
  IsOutlived-by c p d fresh m rival coalesces wins later stamped = record {
    heir = d;
    listed = m;
    rival = rival;
    later = rw stamped at later;
    coalesces = coalesces;
    fresh =
        staleness_mono now c.created_at d.created_at _
          (before-le (c.created_at, c.id) (stamp d) (rw stamped at later)) fresh;
    unbeaten = rw wins (rw stamped (rw (before_irrefl (stamp d)) refl));
    recorded = ap (λ (q : ℕ × ℕ). supersede c q.1) stamped;
  }

  outlived :
      (survived : List Candidate) (c : Candidate) (id : ℕ)
      → Fresh c
      → beaten_by
          (newest_by_key simulation_id deliveries
            (filter (λ x. is_coalescing (policy_of policies x).coalesce) survived)
            (candidate_key c))
          c
        ≡ some id
      → IsOutlived c (supersede c id)
  unfolding policy_of
  outlived survived c id fresh h =
      let (p, at, named, later) = beaten_by-some _ c id h in
      let (wins, keyed) = newest_by_key-some simulation_id deliveries _ (candidate_key c) p at in
      let (d, m, rival, stamped) = winner_row simulation_id (candidate_key c) deliveries p wins in
      subst (λ i. IsOutlived c (supersede c i)) named
        (IsOutlived-by c p d fresh m rival
          (coalescing_key policies (candidate_key c) survived keyed) wins later stamped)

  superseded_drops :
      (survived cs : List Candidate)
      → All Fresh cs
      → All
          (IsJustified cs)
          (split_superseded
            (newest_by_key simulation_id deliveries
              (filter (λ x. is_coalescing (policy_of policies x).coalesce) survived))
            cs).0
  unfolding split_superseded
  superseded_drops survived [] h = tt
  superseded_drops survived (c ∷ cs) h =
      let n =
        newest_by_key simulation_id deliveries
          (filter (λ x. is_coalescing (policy_of policies x).coalesce) survived) in
      let rest =
        All-mono (IsJustified cs) (IsJustified (c ∷ cs)) (weaken c cs) _
          (superseded_drops survived cs h.1) in
      elim (Option-cases (beaten_by (n (candidate_key c)) c)) [
        | inl e ↦ rw (e, split_superseded) rest
        | inr (id, e) ↦
            rw (e, split_superseded) ((c, head refl, inr (outlived survived c id h.0 e)), rest)
      ]

  split_stale-mem :
      (cs : List Candidate) (c : Candidate) → Memᴰ c (split_stale policies now cs).1 → Memᴰ c cs
  unfolding split_stale
  split_stale-mem [] c m = m
  split_stale-mem (x ∷ cs) c m =
      elim (Option-cases (staleness now x.created_at (policy_of policies x).max_staleness_s)) [
        | inl e ↦ kept x cs c (split_stale-mem cs c) (rw (e, split_stale) at m)
        | inr (reason, e) ↦ tail (split_stale-mem cs c (rw (e, split_stale) at m))
      ]

  -- `evaluate` drops a candidate for one of two reasons. Either the event is past the bound of its
  -- consumer's policy, and the drop says by how much; or that policy coalesces and the drop names
  -- a queued delivery of the same key that is later, is not itself stale under the policy, and is
  -- beaten by no queued delivery of the key.
  pub evaluate-IsJustified :
      (cs : List Candidate)
      → All (IsJustified cs) (evaluate simulation_id deliveries cs policies now).drops
  unfolding evaluate
  evaluate-IsJustified cs =
      let (stale_ones, survived) = split_stale policies now cs in
      All-append (IsJustified cs) stale_ones _ (stale_drops cs) (
        All-mono (IsJustified survived) (IsJustified cs)
          (λ drop (c, m, why). (c, split_stale-mem cs c m, why)) _
          (superseded_drops survived survived (split_stale-Fresh cs)))
