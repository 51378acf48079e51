-- ===== src/System/Orders.antt =====
-- The order of a worker's transactions, app/worker/service.py, among those of others.
use webhook_recovery.Prelude.{
  ℕ, ◌≡◌, refl, subst, ◌∙◌, Bool, true, false, Option, List, [], map, arith,
}
use webhook_recovery.Core.Settings.{Settings}
use webhook_recovery.Core.Models.{Store}
use webhook_recovery.Worker.Claim.{Claimed}
use webhook_recovery.Worker.Complete.{Completion, complete_batch}
use webhook_recovery.Worker.Service.{Outcome, alive, dead, store_of, and_then}
use webhook_recovery.Worker.Service.Crash.{is_dead}
use webhook_recovery.System.Steps.{System, Step, set_batch, claimed_system}

abbrev pub completed_system : Settings → ℕ → ℕ → List Completion → System → System
completed_system settings worker_id now completions s = record {
  store = complete_batch settings worker_id completions now s.store;
  batches = set_batch worker_id [] s.batches;
}

module _ (settings : Settings) (worker_id : ℕ) where
  -- The system after the worker has died with a batch in hand.
  abbrev pub stranded_system : System → System
  stranded_system s = record s { batches = set_batch worker_id [] s.batches }

  -- Steps that leave the batch of the worker as it is.
  pub data Others (s : System) : System → Type 0 where
    none_yet : Others s s
    meanwhile :
        {t u : System}
        → Others s t
        → Step settings t u
        → u.batches worker_id ≡ t.batches worker_id
        → Others s u

  -- The order of the transactions of one worker, alive at the end (`false`) or dead (`true`), with
  -- steps of others before a claim and between a claim and its completion. The worker cannot go on
  -- after a claim that took something but by completing that very batch.
  pub data Serves (s : System) : Bool → System → Type 0 where
    rests : Serves s false s
    waits : {t u : System} → Serves s false t → Others t u → Serves s false u
    finds_none :
        {t : System} (simulation_id now limit : ℕ) (locked : ℕ → Bool)
        → Serves s false t
        → t.batches worker_id ≡ []
        → (claimed_system settings simulation_id worker_id now limit locked t).batches worker_id
          ≡ []
        → Serves s false (claimed_system settings simulation_id worker_id now limit locked t)
    answers :
        {t u : System} (simulation_id now limit : ℕ) (locked : ℕ → Bool) (done_at : ℕ)
        (completions : List Completion)
        → Serves s false t
        → t.batches worker_id ≡ []
        → Others (claimed_system settings simulation_id worker_id now limit locked t) u
        → map (λ c. c.claimed) completions ≡ u.batches worker_id
        → Serves s false (completed_system settings worker_id done_at completions u)
    strands :
        {t : System} (simulation_id now limit : ℕ) (locked : ℕ → Bool)
        → Serves s false t
        → t.batches worker_id ≡ []
        → Serves s true
            (stranded_system (claimed_system settings simulation_id worker_id now limit locked t))
    exits : {t : System} → Serves s false t → Serves s true t

  pub Others-batches : {s t : System} → Others s t → t.batches worker_id ≡ s.batches worker_id
  Others-batches none_yet = refl
  Others-batches (meanwhile o step e) = e ∙ Others-batches o

  pub Serves-join : {s t u : System} {b : Bool} → Serves s false t → Serves t b u → Serves s b u
  Serves-join r rests = r
  Serves-join r (waits q o) = waits (Serves-join r q) o
  Serves-join r (finds_none id now limit locked q e f) =
      finds_none id now limit locked (Serves-join r q) e f
  Serves-join r (answers id now limit locked at cs q e o f) =
      answers id now limit locked at cs (Serves-join r q) e o f
  Serves-join r (strands id now limit locked q e) = strands id now limit locked (Serves-join r q) e
  Serves-join r (exits q) = exits (Serves-join r q)

  -- What a function does to the database, others can do in steps.
  pub record IsMet (f : Store → Store) (s : System) : Type 0 where
    pub target : System
    pub others : Others s target
    pub stored : target.store ≡ f s.store

  -- The database and the life of the worker come out as after transactions in order, with nothing in
  -- hand.
  pub record IsServed (s : System) (out : Outcome) : Type 0 where
    pub target : System
    pub served : Serves s (is_dead out) target
    pub stored : target.store ≡ store_of out
    pub idle : target.batches worker_id ≡ []

  pub set_batch_own :
      (batch : List Claimed) (batches : ℕ → List Claimed)
      → set_batch worker_id batch batches worker_id ≡ batch
  set_batch_own batch batches = ground arith

  pub after-IsServed :
      (s t : System) (out : Outcome) → Serves s false t → IsServed t out → IsServed s out
  after-IsServed s t out r l = record {
    target = l.target;
    served = Serves-join r l.served;
    stored = l.stored;
    idle = l.idle;
  }

  pub and_then-IsServed :
      (s : System) (out : Outcome) (next : Option ℕ → Store → Outcome)
      → IsServed s out
      → ((t : System) (seen : Option ℕ) → t.batches worker_id ≡ [] → IsServed t (next seen t.store))
      → IsServed s (and_then out next)
  and_then-IsServed s (dead store) next l f = l
  and_then-IsServed s (alive seen store) next l f =
      after-IsServed s l.target (next seen store) l.served
        (subst (λ x. IsServed l.target (next seen x)) l.stored (f l.target seen l.idle))
