-- ===== src/Conductor/Admission/Allocate/Invariant.antt =====
-- What each round of `allocate` keeps.
use native.Mathlib.Nat.{mul-le-mul_right}
use webhook_recovery.Prelude.{
  ℕ, zero, suc, ◌+◌, ◌-◌, ◌*◌, ◌≤◌, ◌<◌, ◌≡◌, refl, Bool, true, false, not, ◌&&◌, ◌||◌, List, [],
  ◌∷◌, arith, min, leb, ltb, ◌==◌, elem, filter, sum_of, Distinct,
}
use webhook_recovery.Conductor.Admission.{Slots, increment, grant, furthest_behind, allocate_loop}
use webhook_recovery.Conductor.Admission.Allocate.Least.{furthest_behind-mem, furthest_behind_least}

pub elem-filter : (p : ℕ → Bool) (b : ℕ) (cs : List ℕ) → elem b (filter p cs) ≡ (elem b cs && p b)
elem-filter p b [] = refl
elem-filter p b (c ∷ cs) = ground (arith, elem-filter p b cs)

module _ (headrooms weights : Slots) (ids : List ℕ) where
  pub record Inv (active : List ℕ) (granted : Slots) : Type 0 where
    pub known : (b : ℕ) → elem b active ≡ true → elem b ids ≡ true
    pub within : (b : ℕ) → granted b ≤ headrooms b
    pub room : (b : ℕ) → elem b active ≡ true → granted b < headrooms b
    pub full : (b : ℕ) → elem b ids ≡ true → elem b active ≡ false → headrooms b ≤ granted b
    -- Without its last slot, nobody is ahead of a consumer that has room.
    pub fair :
        (a b : ℕ) → elem b active ≡ true → (granted a - 1) * weights b ≤ granted b * weights a

  module _ (active : List ℕ) (granted : Slots) (winner : ℕ) (inv : Inv active granted)
      (chosen : elem winner active ≡ true)
      (least : (b : ℕ)
        → elem b active ≡ true
        → granted winner * weights b ≤ granted b * weights winner) where
    abbrev active' : List ℕ
    active' = (grant headrooms weights winner active granted).0

    elem-active' :
        (b : ℕ)
        → elem b active' ≡ (
            elem b active
            && (not (leb (headrooms winner) (granted winner + 1)) || not (b == winner)))
    unfolding grant
    elem-active' b = ground (arith, elem-filter (λ c. not (c == winner)) b active)

    fair' :
        (a b : ℕ)
        → elem b active ≡ true
        → (increment granted winner a - 1) * weights b ≤ increment granted winner b * weights a
    fair' a b h = ground (
      arith,
      inv.fair a b h,
      least b h,
      mul-le-mul_right {m = granted b} {n = increment granted winner b} (weights a) (ground arith),
    )

    pub grant-Inv : Inv active' (increment granted winner)
    grant-Inv = record {
      known = λ b h. inv.known b (ground (arith, elem-active' b));
      within = λ b. ground (arith, inv.within b, inv.room winner chosen);
      room = λ b h. ground (arith, elem-active' b, inv.room b);
      full = λ b h k. ground (arith, elem-active' b, inv.full b h);
      fair = λ a b h. fair' a b (ground (arith, elem-active' b));
    }

  elem_head : (c : ℕ) (rest : List ℕ) → elem c (c ∷ rest) ≡ true
  elem_head c rest = ground arith

  sum_of-increment_other :
      (winner : ℕ) (granted : Slots) (cs : List ℕ)
      → elem winner cs ≡ false
      → sum_of (increment granted winner) cs ≡ sum_of granted cs
  sum_of-increment_other winner granted [] h = refl
  sum_of-increment_other winner granted (c ∷ cs) h =
      ground (arith, sum_of-increment_other winner granted cs)

  sum_of-increment :
      (winner : ℕ) (granted : Slots) (cs : List ℕ)
      → Distinct cs
      → elem winner cs ≡ true
      → sum_of (increment granted winner) cs ≡ suc (sum_of granted cs)
  sum_of-increment winner granted [] d h = cc
  sum_of-increment winner granted (c ∷ cs) d h =
      ground
        (arith, sum_of-increment winner granted cs d.1, sum_of-increment_other winner granted cs)

  sum_of_mono :
      (f g : ℕ → ℕ) (cs : List ℕ)
      → ((c : ℕ) → elem c cs ≡ true → f c ≤ g c)
      → sum_of f cs ≤ sum_of g cs
  sum_of_mono f g [] h = omega arith
  sum_of_mono f g (c ∷ cs) h =
      omega (arith, h c (elem_head c cs), sum_of_mono f g cs (λ x e. h x (ground arith)))

  -- The result of the loop, with the consumers that still had room when it stopped.
  pub record Final (granted final : Slots) (n : ℕ) : Type 0 where
    pub still_active : List ℕ
    pub inv : Inv still_active final
    pub total : sum_of final ids ≡ min (sum_of granted ids + n) (sum_of headrooms ids)

  module _ (distinct : Distinct ids) (weighted : (c : ℕ) → elem c ids ≡ true → 0 < weights c) where
    sum-le :
        (active : List ℕ) (granted : Slots)
        → Inv active granted
        → sum_of granted ids ≤ sum_of headrooms ids
    sum-le active granted inv = sum_of_mono granted headrooms ids (λ c e. inv.within c)

    pub allocate_loop-Final :
        (n : ℕ) (active : List ℕ) (granted : Slots)
        → Inv active granted
        → Final granted (allocate_loop headrooms weights n active granted) n
    unfolding allocate_loop
    allocate_loop-Final zero active granted inv = record {
      still_active = active;
      inv = inv;
      total = omega (arith, sum-le active granted inv);
    }
    allocate_loop-Final (suc n) [] granted inv = record {
      still_active = [];
      inv = inv;
      total = omega (
        arith,
        sum-le [] granted inv,
        sum_of_mono headrooms granted ids (λ c e. inv.full c e refl),
      );
    }
    allocate_loop-Final (suc n) (c ∷ rest) granted inv =
        let m = furthest_behind granted weights c rest in
        let chosen = furthest_behind-mem granted weights c rest in
        let next = grant-Inv (c ∷ rest) granted m inv chosen (λ b e.
          furthest_behind_least granted weights c rest b (λ k h. weighted k (inv.known k h)) e) in
        let later = allocate_loop-Final n _ (increment granted m) next in
        record {
          still_active = later.still_active;
          inv = later.inv;
          total =
              omega
                (arith, later.total, sum_of-increment m granted ids distinct (inv.known m chosen));
        }

-- Each round keeps every consumer within its headroom, whatever the weights.
module _ (headrooms weights : Slots) where
  record Room (active : List ℕ) (granted : Slots) : Type 0 where
    within : (b : ℕ) → granted b ≤ headrooms b
    room : (b : ℕ) → elem b active ≡ true → granted b < headrooms b

  grant-Room :
      (active : List ℕ) (granted : Slots) (winner : ℕ)
      → elem winner active ≡ true
      → Room active granted
      → Room (grant headrooms weights winner active granted).0 (increment granted winner)
  unfolding grant
  grant-Room active granted winner chosen r = record {
    within = λ b. ground (arith, r.within b, r.room winner chosen);
    room = λ b h. ground (arith, elem-filter (λ c. not (c == winner)) b active, r.room b);
  }

  allocate_loop-within :
      (n : ℕ) (active : List ℕ) (granted : Slots)
      → Room active granted
      → (b : ℕ) → allocate_loop headrooms weights n active granted b ≤ headrooms b
  unfolding allocate_loop
  allocate_loop-within zero active granted r b = r.within b
  allocate_loop-within (suc n) [] granted r b = r.within b
  allocate_loop-within (suc n) (c ∷ rest) granted r b =
      let m = furthest_behind granted weights c rest in
      allocate_loop-within n _ (increment granted m)
        (grant-Room (c ∷ rest) granted m (furthest_behind-mem granted weights c rest) r) b

  pub allocate_loop-le :
      (n : ℕ) (cs : List ℕ) (b : ℕ)
      → allocate_loop headrooms weights n (filter (λ c. ltb 0 (headrooms c)) cs) (λ c. 0) b
        ≤ headrooms b
  allocate_loop-le n cs =
      allocate_loop-within n _ (λ c. 0)
        (record {
          within = λ b. omega arith;
          room = λ b h. ground (arith, elem-filter (λ c. ltb 0 (headrooms c)) b cs);
        })
