-- ===== src/Conductor/Leader.antt =====
-- app/conductor/leader.py: leadership is an advisory lock of the database, held by a session. The
-- lock is a parameter; what a `LeaderLock` remembers is the session of its connection. The connection
-- comes from the engine's pool, app/core/db.py, and closing it gives it back: its session goes on.
pub mod Tests
pub mod Turns
pub mod Fenced
pub mod Single
use webhook_recovery.Prelude.{ℕ, ◌≡◌, Bool, true, false, Option, none, some, ◌==◌, if◌then◌else◌}

-- The advisory lock under one key: what Postgres documents of it. A session may take it again.
pub record AdvisoryLock : Type 1 where
  pub State : Type 0
  pub holds : ℕ → State → Bool
  pub try_lock : ℕ → State → State × Bool
  pub unlock : ℕ → State → State
  pub end_session : ℕ → State → State
  pub one_holder : (s t : ℕ) (lock : State) → holds s lock ≡ true → holds t lock ≡ true → s ≡ t
  pub taken :
      (s : ℕ) (lock : State) → (try_lock s lock).1 ≡ true → holds s (try_lock s lock).0 ≡ true
  pub try_keeps :
      (s t : ℕ) (lock : State) → holds t lock ≡ true → holds t (try_lock s lock).0 ≡ true
  pub unlock_keeps :
      (s t : ℕ) (lock : State)
      → (s == t) ≡ false
      → holds t lock ≡ true
      → holds t (unlock s lock) ≡ true
  pub end_keeps :
      (s t : ℕ) (lock : State)
      → (s == t) ≡ false
      → holds t lock ≡ true
      → holds t (end_session s lock) ≡ true

-- How an `acquire` without a connection goes: no session can be had; the query fails, and may still
-- have reached the database; or it returns.
pub data Trouble : Type 0 where
  no_session no_query no_answer no_trouble : Trouble

pub data Acquired : Type 0 where
  leads stands_by raises : Acquired

module _ (db : AdvisoryLock) where
  -- `acquire`: the lock, the session of `_conn`, and the result. `session` is the one of the
  -- connection that `dedicated_connection` checks out, which goes back to the pool unless it has the
  -- lock.
  pub acquire : ℕ → Trouble → db.State → Option ℕ → db.State × Option ℕ × Acquired
  acquire session _ lock (some conn) = (lock, some conn, leads)
  acquire session no_session lock none = (lock, none, raises)
  acquire session no_query lock none = (lock, none, raises)
  acquire session no_answer lock none = ((db.try_lock session lock).0, none, raises)
  acquire session no_trouble lock none =
      let (lock', acquired) = db.try_lock session lock in
      if acquired then (lock', some session, leads) else (lock', none, stands_by)

  -- `release`. The unlock may fail, which is suppressed; either way the connection goes back to the
  -- pool.
  pub release : Bool → db.State → Option ℕ → db.State × Option ℕ
  release unlocks lock none = (lock, none)
  release true lock (some conn) = (db.unlock conn lock, none)
  release false lock (some conn) = (lock, none)
