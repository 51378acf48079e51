-- ===== src/Core/Registry/Liveness.antt =====
-- Who is seen alive, and who is asked to crash.
use webhook_recovery.Prelude.{
  ℕ, ◌≤◌, ◌≡◌, refl, ap, sym, ◌∙◌, inl, inr, Bool, true, false, not, Option, none, some, List, [],
  ◌∷◌, ◌++◌, filter, ◌==◌, arith, Bool-cases, Option-cases, update_where,
}
use webhook_recovery.Core.Enums.{ProcessKind}
use webhook_recovery.Core.Settings.{Settings}
use webhook_recovery.Core.Models.{Process, Store}
use webhook_recovery.Core.Registry.{
  is_process, prune_dead, new_process, register_process, returned, heartbeat, deregister_process,
  is_alive, get_process, ProcessRead, kill_found, kill_process,
}

abbrev pub alive_ones : Settings → ℕ → List Process → List Process
alive_ones settings now = filter (is_alive settings now)

module _ (settings : Settings) where
  prune-alive :
      (now later : ℕ) (ps : List Process)
      → now ≤ later
      → alive_ones settings later (prune_dead settings now ps) ≡ alive_ones settings later ps
  unfolding prune_dead
  prune-alive now later [] h = refl
  prune-alive now later (p ∷ ps) h = ground (arith, prune-alive now later ps h)

  alive_append :
      (now : ℕ) (ps qs : List Process)
      → alive_ones settings now (ps ++ qs)
        ≡ alive_ones settings now ps ++ alive_ones settings now qs
  alive_append now [] qs = refl
  alive_append now (p ∷ ps) qs = ground (arith, alive_append now ps qs)

  -- Registration hides nobody: the processes alive at any time from the registration on are those
  -- that were so without it, and the new one, for as long as its first heartbeat is in the window.
  pub register_process-alive :
      (kind : ProcessKind) (process_id now later : ℕ) (ps : List Process)
      → now ≤ later
      → alive_ones settings later (register_process settings kind process_id now ps)
        ≡ alive_ones settings later ps
          ++ alive_ones settings later (new_process kind process_id now ∷ [])
  unfolding register_process
  register_process-alive kind process_id now later ps h =
      alive_append later (prune_dead settings now ps) (new_process kind process_id now ∷ [])
      ∙ ap (λ xs. xs ++ alive_ones settings later (new_process kind process_id now ∷ []))
          (prune-alive now later ps h)

  -- A process that deregisters is at once seen no more, and all others as before.
  pub deregister_process-alive :
      (process_id now : ℕ) (ps : List Process)
      → alive_ones settings now (deregister_process settings process_id now ps)
        ≡ filter (λ p. not (is_process process_id p)) (alive_ones settings now ps)
  unfolding deregister_process
  deregister_process-alive process_id now [] = refl
  deregister_process-alive process_id now (p ∷ ps) =
      ground (arith, deregister_process-alive process_id now ps)

marked_returned :
    (process_id other : ℕ) (ps : List Process)
    → (process_id == other) ≡ false
    → returned other
        (update_where (is_process process_id) (λ q. record q { crash_requested = true }) ps)
      ≡ returned other ps
marked_returned process_id other [] n = refl
marked_returned process_id other (p ∷ ps) n = ground (arith, marked_returned process_id other ps n)

marked_own :
    (process_id : ℕ) (ps : List Process) (p : Process)
    → get_process process_id ps ≡ some p
    → returned process_id
        (update_where (is_process process_id) (λ q. record q { crash_requested = true }) ps)
      ≡ true
marked_own process_id [] p h = cc
marked_own process_id (q ∷ ps) p h = elim (Bool-cases (is_process process_id q)) [
  | inl e ↦ ground arith
  | inr e ↦ ground (arith, marked_own process_id ps p)
]

beat_returned :
    (process_id other now : ℕ) (is_leader : Bool) (ps : List Process)
    → returned other (heartbeat process_id is_leader now ps).0 ≡ returned other ps
unfolding heartbeat
beat_returned process_id other now is_leader [] = refl
beat_returned process_id other now is_leader (p ∷ ps) =
    ground (arith, beat_returned process_id other now is_leader ps)

abbrev processes_of : Option (Store × ProcessRead) → List Process
processes_of none = []
processes_of (some (store, read)) = store.processes

-- A kill reaches its process and no other: after the route has found the row and marked it, a
-- heartbeat of that process reports the request, also with a heartbeat of any process in between, and
-- that of any other process reports what it would have reported without the kill.
pub kill_process-heartbeat :
    (process_id at now between : ℕ) (someone : ℕ) (leads : Bool) (store store' : Store)
    (read : ProcessRead)
    → kill_process process_id at store ≡ some (store', read)
    → let beaten = (heartbeat someone leads between store'.processes).0 in
      ((heartbeat process_id leads now beaten).1 ≡ true)
      × ((other : ℕ)
          → (process_id == other) ≡ false
          → (heartbeat other leads now store'.processes).1
            ≡ (heartbeat other leads now store.processes).1)
unfolding kill_process heartbeat
kill_process-heartbeat process_id at now between someone leads store store' read h =
    elim (Option-cases (get_process process_id store.processes)) [
      | inl e ↦
          let bad : kill_found process_id at store none ≡ some (store', read) =
            sym (ap (kill_found process_id at store) e) ∙ h in
          cc
      | inr (p, e) ↦
          let marked : update_where (is_process process_id)
                (λ q. record q { crash_requested = true }) store.processes
              ≡ store'.processes =
            ap processes_of (sym (ap (kill_found process_id at store) e) ∙ h) in
          (
            beat_returned someone process_id between leads store'.processes
                ∙ ap (returned process_id) (sym marked)
                ∙ marked_own process_id store.processes p e,
            λ other n.
                ap (returned other) (sym marked)
                ∙ marked_returned process_id other store.processes n,
          )
    ]
