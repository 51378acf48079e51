-- ===== src/Core/Registry.antt =====
-- app/core/registry.py: the rows by which processes are seen, and asked to crash; with the two routes
-- of app/api/routes.py that read and write them. Nothing else reads the table.
pub mod Tests
pub mod Liveness
use webhook_recovery.Prelude.{
  ℕ, ◌-◌, ◌*◌, Bool, true, false, not, Option, none, some, List, [], ◌∷◌, ◌++◌, map, filter, count,
  ltb, ◌==◌, ◌&&◌, update_where, order_by,
}
use webhook_recovery.Core.Enums.{ProcessKind, conductor, worker, is_in_flight}
use webhook_recovery.Core.Settings.{Settings}
use webhook_recovery.Core.Models.{Process, Store, Delivery}

abbrev pub prune_window_multiple : ℕ
prune_window_multiple = 240

abbrev pub is_process : ℕ → Process → Bool
is_process process_id p = p.id == process_id

-- `_prune_dead`
pub prune_dead : Settings → ℕ → List Process → List Process
prune_dead settings now = filter (λ p.
    not (
      ltb p.last_heartbeat_wall (now - settings.process_liveness_window_s * prune_window_multiple)))

-- The host's name and the system's process id are written and never read, and are left out.
abbrev pub new_process : ProcessKind → ℕ → ℕ → Process
new_process kind process_id now = record {
  id = process_id;
  kind = kind;
  started_at_wall = now;
  last_heartbeat_wall = now;
  is_leader = false;
  crash_requested = false;
}

pub register_process : Settings → ProcessKind → ℕ → ℕ → List Process → List Process
unfolding prune_dead
register_process settings kind process_id now processes =
    prune_dead settings now processes ++ (new_process kind process_id now ∷ [])

-- What `RETURNING crash_requested` gives of the first row updated; no row gives None, which is false.
abbrev pub returned : ℕ → List Process → Bool
returned process_id [] = false
returned process_id (p ∷ ps) = elim (is_process process_id p) [
  | true ↦ p.crash_requested
  | false ↦ returned process_id ps
]

pub heartbeat : ℕ → Bool → ℕ → List Process → List Process × Bool
heartbeat process_id is_leader now processes = (
  update_where (is_process process_id)
      (λ p. record p { last_heartbeat_wall = now; is_leader = is_leader }) processes,
  returned process_id processes,
)

pub deregister_process : Settings → ℕ → ℕ → List Process → List Process
deregister_process settings process_id now = update_where (is_process process_id) (λ p. record p {
  last_heartbeat_wall = now - settings.process_liveness_window_s * 2;
  is_leader = false;
})

-- `GET /process`: who is alive, by kind and start, with what each has in flight.
abbrev pub kind_order : Process → ℕ
kind_order p = elim p.kind [ conductor ↦ 0 | worker ↦ 1 ]

abbrev pub is_alive : Settings → ℕ → Process → Bool
is_alive settings now p = ltb (now - settings.process_liveness_window_s) p.last_heartbeat_wall

abbrev pub is_leased_by : ℕ → Delivery → Bool
is_leased_by process_id d = elim d.leased_by [
  | none ↦ false
  | some w ↦ is_in_flight d.state && w == process_id
]

pub record ProcessRead : Type 0 where
  pub process : Process
  pub heartbeat_age : ℕ
  pub in_flight : ℕ

-- `_to_process_read`
abbrev pub to_process_read : Process → ℕ → ℕ → ProcessRead
to_process_read process now in_flight = record {
  process = process;
  heartbeat_age = now - process.last_heartbeat_wall;
  in_flight = in_flight;
}

pub list_processes : Settings → ℕ → Store → List ProcessRead
list_processes settings now store =
    map (λ p. to_process_read p now (count (is_leased_by p.id) store.deliveries))
      (order_by kind_order
        (order_by (λ p. p.started_at_wall) (filter (is_alive settings now) store.processes)))

-- The row with an id, which is the primary key.
abbrev pub get_process : ℕ → List Process → Option Process
get_process process_id [] = none
get_process process_id (p ∷ ps) = elim (is_process process_id p) [
  | true ↦ some p
  | false ↦ get_process process_id ps
]

-- `POST /process/{process_id}/kill`, once the row is looked up; `none` is the 404.
abbrev pub kill_found : ℕ → ℕ → Store → Option Process → Option (Store × ProcessRead)
kill_found process_id now store none = none
kill_found process_id now store (some p) = some (
  record store {
    processes =
        update_where (is_process process_id) (λ q. record q { crash_requested = true })
          store.processes;
  },
  to_process_read (record p { crash_requested = true }) now
      (count (is_leased_by process_id) store.deliveries),
)

pub kill_process : ℕ → ℕ → Store → Option (Store × ProcessRead)
kill_process process_id now store =
    kill_found process_id now store (get_process process_id store.processes)
