-- ===== src/Core/Scenario/Roster/Seeded.antt =====
-- Seeding a simulation twice is seeding it once.
use webhook_recovery.Prelude.{
  ℕ, ◌≡◌, refl, ap, ◌∙◌, inl, inr, Bool, List, [], ◌∷◌, ◌++◌, filter, arith, ◌==◌, Bool-cases,
}
use webhook_recovery.Core.Models.{Store, Consumer}
use webhook_recovery.Core.Scenario.Roster.{
  roster, new_consumers, existing, seed_after, seed_simulation,
}

filter-append :
    (p : Consumer → Bool) (xs ys : List Consumer) → filter p (xs ++ ys) ≡ filter p xs ++ filter p ys
filter-append p [] ys = refl
filter-append p (x ∷ xs) ys = elim (Bool-cases (p x)) [
  | inl e ↦ rw e (ap (◌∷◌ x) (filter-append p xs ys))
  | inr e ↦ rw e (filter-append p xs ys)
]

own_roster :
    (simulation_id next : ℕ)
    → filter (λ c. c.simulation_id == simulation_id) (new_consumers simulation_id next roster)
      ≡ new_consumers simulation_id next roster
own_roster simulation_id next = ground arith

seed_after_again :
    (simulation_id next next' : ℕ) (store : Store) (found : List Consumer)
    → existing simulation_id store ≡ found
    → let out = seed_after simulation_id next store found in
      seed_after simulation_id next' out.0 (existing simulation_id out.0) ≡ out
seed_after_again simulation_id next next' store (c ∷ cs) e =
    ap (seed_after simulation_id next' store) e
seed_after_again simulation_id next next' store [] e =
    let out = seed_after simulation_id next store [] in
    let now : existing simulation_id out.0 ≡ new_consumers simulation_id next roster =
      filter-append (λ c. c.simulation_id == simulation_id) store.consumers
        (new_consumers simulation_id next roster)
      ∙ ap
          (λ xs.
            xs
            ++ filter (λ c. c.simulation_id == simulation_id)
                (new_consumers simulation_id next roster))
          e
      ∙ own_roster simulation_id next in
    ap (seed_after simulation_id next' out.0) now

-- Seeding is idempotent: whatever the store holds, and whatever ids the database would give next,
-- seeding a simulation again returns the same consumers and writes nothing.
pub seed_simulation_again :
    (simulation_id next next' : ℕ) (store : Store)
    → let out = seed_simulation simulation_id next store in
      seed_simulation simulation_id next' out.0 ≡ out
unfolding seed_simulation
seed_simulation_again simulation_id next next' store =
    seed_after_again simulation_id next next' store (existing simulation_id store) refl
