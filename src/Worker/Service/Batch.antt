-- ===== src/Worker/Service/Batch.antt =====
-- A drain, with what others commit before its claim and during its attempts.
use mathlib.Core.List.{Memᴰ}
use webhook_recovery.Prelude.{
  ℕ, ◌+◌, ◌≡◌, refl, ap, sym, subst, true, false, ◌&&◌, Option, none, some, List, [], ◌∷◌, map,
  if◌then◌else◌, Distinct, All-Memᴰ, Memᴰ-map,
}
use webhook_recovery.Core.Enums.{is_paused, is_ready, in_flight, is_in_flight}
use webhook_recovery.Core.Settings.{Settings}
use webhook_recovery.Core.Models.{Simulation, Store, Delivery}
use webhook_recovery.Core.Clock.{from_row, now_at}
use webhook_recovery.Worker.Claim.{Claimed, claim_batch}
use webhook_recovery.Worker.Claim.Exclusive.{Taken, claim_batch-Taken}
use webhook_recovery.Worker.Complete.{leased_to}
use webhook_recovery.Worker.Complete.Fence.{delivery_ids}
use webhook_recovery.Worker.Complete.Answers.{answered_row, complete_batch_answers}
use webhook_recovery.Worker.Transport.{AttemptResult}
use webhook_recovery.Worker.Service.{
  honour_crash_request, Surroundings, store_of, and_then, honoured, complete_claim, answered,
  answer, drain,
}

claims_of_completions :
    (attempt : Claimed → AttemptResult) (cs : List Claimed)
    → delivery_ids (map (complete_claim attempt) cs) ≡ map (λ c. c.delivery_id) cs
claims_of_completions attempt [] = refl
claims_of_completions attempt (c ∷ cs) = ap (◌∷◌ c.delivery_id) (claims_of_completions attempt cs)

module _ (settings : Settings) (sim : Simulation) (worker_id : ℕ) (around : Surroundings)
    (seen : Option ℕ) (store : Store) where
  abbrev claim_time : ℕ
  claim_time = now_at (from_row sim) (around.claim_at sim.id)

  abbrev done_time : ℕ
  done_time = now_at (from_row sim) (around.complete_at sim.id)

  -- What the claim finds, what it leaves, and what the completion finds.
  abbrev pub found : Store
  found = around.before sim.id store

  abbrev pub claim : Store × List Claimed
  claim =
      claim_batch settings sim.id worker_id claim_time settings.worker_batch_size
        (around.locked sim.id) found

  abbrev pub meanwhile : Store
  meanwhile = around.during sim.id claim.0

  answer-answered :
      (store' : Store) (c : Claimed) (cs : List Claimed)
      → around.asked sim.id ≡ false
      → Memᴰ c cs
      → answer settings sim worker_id around seen store' cs
        ≡ answered settings sim worker_id around cs none store'
  unfolding answer honour_crash_request
  answer-answered store' c [] h m = elim m [ ]
  answer-answered store' c (x ∷ cs) h m = rw (h, and_then, honoured) refl

  -- What a drain does with one claim, whose delivery has the row `d` when the outcomes are recorded.
  pub record IsAnswered (c : Claimed) (d : Delivery) : Type 0 where
    pub ready_row : Delivery
    pub listed : Memᴰ ready_row found.deliveries
    pub was_ready : is_ready ready_row.state ≡ true
    pub named : c.delivery_id ≡ ready_row.id
    pub numbered : c.attempt_no ≡ ready_row.attempt_count + 1
    pub leased :
        Memᴰ
          (record ready_row {
            state = in_flight;
            leased_by = some worker_id;
            lease_expires_at = some (claim_time + settings.lease_duration_virtual_s);
            attempt_count = ready_row.attempt_count + 1;
          })
          claim.0.deliveries
    pub recorded :
        Memᴰ
          (if is_in_flight d.state && leased_to worker_id d.leased_by
            then answered_row settings done_time (around.attempt sim.id c).outcome c.attempt_no d
            else d)
          (store_of (drain settings sim worker_id around seen store)).deliveries

  -- A drain that is neither paused nor asked to crash answers for all that it claims, whatever others
  -- commit before its claim and during its attempts. With distinct deliveries at the claim, each
  -- delivery claimed was ready, is leased to the worker and attempted under its next number. Then the
  -- row that others have left of it by the time of the completion, if it is still in flight under the
  -- worker's lease, is delivered, or at the retry cap failed, or pending until its backoff is over, as
  -- the result of that attempt says; and if not, a late completion leaves it as it is.
  pub drain-IsAnswered :
      Distinct (map (λ d. d.id) found.deliveries)
      → is_paused sim.status ≡ false
      → around.asked sim.id ≡ false
      → (c : Claimed) (d : Delivery) → Memᴰ c claim.1
      → Memᴰ d meanwhile.deliveries
      → d.id ≡ c.delivery_id
      → IsAnswered c d
  unfolding drain
  drain-IsAnswered distinct running unasked c d m here e =
      let (few, apart, taken) =
        claim_batch-Taken settings sim.id worker_id claim_time settings.worker_batch_size
          (around.locked sim.id) found distinct in
      let (row, free, live, t) =
        All-Memᴰ
          (Taken settings sim.id worker_id claim_time settings.worker_batch_size
            (around.locked sim.id) found distinct claim.0)
          claim.1 c taken m in
      let attempt = around.attempt sim.id in
      let cs = map (complete_claim attempt) claim.1 in
      record {
        ready_row = row;
        listed = free.listed;
        was_ready = free.ready;
        named = t.named;
        numbered = t.numbered;
        leased = t.leased;
        recorded =
            rw (running, answer-answered claim.0 c claim.1 unasked m)
              (complete_batch_answers settings worker_id done_time cs meanwhile
                (complete_claim attempt c) d
                (subst Distinct (sym (claims_of_completions attempt claim.1)) apart)
                (Memᴰ-map (complete_claim attempt) c claim.1 m) here e).0;
      }
