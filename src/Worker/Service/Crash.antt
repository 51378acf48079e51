-- ===== src/Worker/Service/Crash.antt =====
-- When a worker that is asked to crash does.
use webhook_recovery.Prelude.{
  ℕ, ◌+◌, ◌-◌, ◌≤◌, ◌≡◌, refl, ap, ◌∙◌, ◌⊎◌, inl, inr, Bool, true, false, Option, none, some, List,
  [], ◌∷◌, ◌++◌, filter, arith, leb, All, Bool-cases,
}
use webhook_recovery.Core.Enums.{is_running, is_paused}
use webhook_recovery.Core.Settings.{Settings}
use webhook_recovery.Core.Models.{Simulation, Store}
use webhook_recovery.Worker.Claim.{Claimed}
use webhook_recovery.Worker.Service.{
  crash_grace, honour_crash_request, Surroundings, Outcome, alive, dead, and_then, honoured, answer,
  drain, drain_all, run_once,
}

abbrev pub is_dead : Outcome → Bool
is_dead (alive seen store) = false
is_dead (dead store) = true

-- Every check of a pass finds the same.
pub record IsAsked (b : Bool) (around : Surroundings) : Type 0 where
  pub each : (simulation_id : ℕ) → around.asked simulation_id ≡ b
  pub last : around.asked_last ≡ b

-- A worker between two of its passes, and what others commit in the meantime.
pub record Visit : Type 0 where
  pub others : Store → Store
  pub around : Surroundings

-- One pass after the other, as the runner's loop calls them, for as long as the worker lives.
abbrev pub passes : Settings → ℕ → List Visit → Outcome → Outcome
passes settings worker_id [] out = out
passes settings worker_id (v ∷ vs) (dead store) = dead store
passes settings worker_id (v ∷ vs) (alive seen store) =
    passes settings worker_id vs (run_once settings worker_id v.around seen (v.others store))

alive_lem :
    (out : Outcome)
    → is_dead out ≡ false
    → (seen : Option ℕ) × (store : Store) × (out ≡ alive seen store)
alive_lem (alive seen store) h = (seen, store, refl)
alive_lem (dead store) h = cc

abbrev running_ones : Store → List Simulation
running_ones store = filter (λ (sim : Simulation). is_running sim.status) store.simulations

abbrev Asked : Option ℕ → Outcome → Type 0
Asked seen out =
    ((store : Store) × (out ≡ dead store)) ⊎ ((store : Store) × (out ≡ alive seen store))

module _ (settings : Settings) (worker_id : ℕ) (around : Surroundings) where
  answer_asked :
      (sim : Simulation) (seen : Option ℕ) (store : Store) (claimed : List Claimed)
      → around.asked sim.id ≡ true
      → Asked seen (answer settings sim worker_id around seen store claimed)
  unfolding answer honour_crash_request
  answer_asked sim seen store [] h = inr (store, refl)
  answer_asked sim seen store (c ∷ cs) h = inl (store, rw (h, and_then, honoured) refl)

  drain_asked :
      (sim : Simulation) (seen : Option ℕ) (store : Store)
      → around.asked sim.id ≡ true
      → Asked seen (drain settings sim worker_id around seen store)
  unfolding drain
  drain_asked sim seen store h = elim (Bool-cases (is_paused sim.status)) [
    | inl p ↦ inr (store, rw p refl)
    | inr p ↦ rw p (answer_asked sim seen _ _ h)
  ]

  -- A pass that is asked throughout ends in death, or in the last check.
  drain_all_asked :
      (sims : List Simulation) (seen : Option ℕ) (store : Store)
      → IsAsked true around
      → let out = drain_all settings worker_id around sims seen store in
        ((store' : Store) × (out ≡ dead store'))
        ⊎ ((store' : Store) × (out
              ≡ honoured (honour_crash_request true false around.monotonic seen) store'))
  unfolding drain_all
  drain_all_asked [] seen store h =
      inr (
        store,
        ap (λ b. honoured (honour_crash_request b false around.monotonic seen) store) h.last,
      )
  drain_all_asked (sim ∷ sims) seen store h =
      let next = λ (seen' : Option ℕ) (store' : Store).
        drain_all settings worker_id around sims seen' store' in
      elim (drain_asked sim seen store (h.each sim.id)) [
        | inl (store', e) ↦ inl (store', ap (λ o. and_then o next) e)
        | inr (store', e) ↦ elim (drain_all_asked sims seen store' h) [
          | inl (last, f) ↦ inl (last, ap (λ o. and_then o next) e ∙ f)
          | inr (last, f) ↦ inr (last, ap (λ o. and_then o next) e ∙ f)
        ]
      ]

  answer_unasked :
      (sim : Simulation) (seen : Option ℕ) (store : Store) (claimed : List Claimed)
      → around.asked sim.id ≡ false
      → is_dead (answer settings sim worker_id around seen store claimed) ≡ false
  unfolding answer honour_crash_request
  answer_unasked sim seen store [] h = refl
  answer_unasked sim seen store (c ∷ cs) h = rw (h, is_dead, and_then, honoured) refl

  drain_unasked :
      (sim : Simulation) (seen : Option ℕ) (store : Store)
      → around.asked sim.id ≡ false
      → is_dead (drain settings sim worker_id around seen store) ≡ false
  unfolding drain
  drain_unasked sim seen store h = elim (Bool-cases (is_paused sim.status)) [
    | inl p ↦ rw p refl
    | inr p ↦ rw p (answer_unasked sim seen _ _ h)
  ]

  drain_all_unasked :
      (sims : List Simulation) (seen : Option ℕ) (store : Store)
      → IsAsked false around
      → (store' : Store) × (drain_all settings worker_id around sims seen store ≡ alive none store')
  unfolding drain_all honour_crash_request
  drain_all_unasked [] seen store h = (store, rw (h.last, honoured) refl)
  drain_all_unasked (sim ∷ sims) seen store h =
      let next = λ (seen' : Option ℕ) (store' : Store).
        drain_all settings worker_id around sims seen' store' in
      let (seen', store', e) =
        alive_lem (drain settings sim worker_id around seen store)
          (drain_unasked sim seen store (h.each sim.id)) in
      let (last, f) = drain_all_unasked sims seen' store' h in
      (last, ap (λ o. and_then o next) e ∙ f)

  -- A worker dies of a request only: where every check of a pass finds none, it lives through the
  -- pass, whatever it claims, and forgets a request that it saw before.
  pub run_once_unasked :
      (seen : Option ℕ) (store : Store)
      → IsAsked false around
      → (store' : Store) × (run_once settings worker_id around seen store ≡ alive none store')
  unfolding run_once
  run_once_unasked seen store h = drain_all_unasked (running_ones store) seen store h

  first-Asked :
      (store : Store)
      → IsAsked true around
      → Asked (some around.monotonic) (run_once settings worker_id around none store)
  unfolding run_once honour_crash_request
  first-Asked store h = drain_all_asked (running_ones store) none store h

  later-Asked :
      (seen : ℕ) (store : Store)
      → IsAsked true around
      → Asked (some seen) (run_once settings worker_id around (some seen) store)
  unfolding run_once honour_crash_request
  later-Asked seen store h = elim (drain_all_asked (running_ones store) (some seen) store h) [
    | inl d ↦ inl d
    | inr (store', e) ↦ elim (Bool-cases (leb crash_grace (around.monotonic - seen))) [
      | inl g ↦ inl (store', e ∙ rw g refl)
      | inr g ↦ inr (store', e ∙ rw g refl)
    ]
  ]

  grace_over :
      (seen : ℕ) (store : Store)
      → IsAsked true around
      → seen + crash_grace ≤ around.monotonic
      → is_dead (run_once settings worker_id around (some seen) store) ≡ true
  unfolding run_once honour_crash_request
  grace_over seen store h late = elim (drain_all_asked (running_ones store) (some seen) store h) [
    | inl (store', e) ↦ ap is_dead e
    | inr (store', e) ↦
        let over : leb crash_grace (around.monotonic - seen) ≡ true = ground (arith, late) in
        ap is_dead e ∙ rw over refl
  ]

module _ (settings : Settings) (worker_id : ℕ) where
  passes_dead :
      (visits : List Visit) (store : Store)
      → is_dead (passes settings worker_id visits (dead store)) ≡ true
  passes_dead [] store = refl
  passes_dead (v ∷ vs) store = refl

  passes_grace :
      (seen : ℕ) (last : Visit) (between : List Visit) (store : Store)
      → All (λ v. IsAsked true v.around) between
      → IsAsked true last.around
      → seen + crash_grace ≤ last.around.monotonic
      → is_dead (passes settings worker_id (between ++ (last ∷ [])) (alive (some seen) store))
        ≡ true
  passes_grace seen last [] store h asked late =
      grace_over settings worker_id last.around seen (last.others store) asked late
  passes_grace seen last (v ∷ vs) store h asked late =
      elim (later-Asked settings worker_id v.around seen (v.others store) h.0) [
        | inl (store', e) ↦
            ap (λ o. is_dead (passes settings worker_id (vs ++ (last ∷ [])) o)) e
            ∙ passes_dead (vs ++ (last ∷ [])) store'
        | inr (store', e) ↦
            ap (λ o. is_dead (passes settings worker_id (vs ++ (last ∷ [])) o)) e
            ∙ passes_grace seen last vs store' h.1 asked late
      ]

  -- A request to crash is honoured: of the passes of a worker that is asked throughout, whatever
  -- they claim and whatever others commit between them, the one that ends at least the grace period
  -- after the first is the last, if an earlier one, with a batch to strand, was not.
  pub crash_is_honoured :
      (first last : Visit) (between : List Visit) (store : Store)
      → IsAsked true first.around
      → All (λ v. IsAsked true v.around) between
      → IsAsked true last.around
      → first.around.monotonic + crash_grace ≤ last.around.monotonic
      → is_dead (passes settings worker_id (first ∷ (between ++ (last ∷ []))) (alive none store))
        ≡ true
  crash_is_honoured first last between store h hs asked late =
      elim (first-Asked settings worker_id first.around (first.others store) h) [
        | inl (store', e) ↦
            ap (λ o. is_dead (passes settings worker_id (between ++ (last ∷ [])) o)) e
            ∙ passes_dead (between ++ (last ∷ [])) store'
        | inr (store', e) ↦
            ap (λ o. is_dead (passes settings worker_id (between ++ (last ∷ [])) o)) e
            ∙ passes_grace first.around.monotonic last between store' hs asked late
      ]
