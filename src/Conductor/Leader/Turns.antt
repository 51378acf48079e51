-- ===== src/Conductor/Leader/Turns.antt =====
-- The conductors of app/conductor/service.py, as they take and give up the lock.
use webhook_recovery.Prelude.{ℕ, ◌≡◌, Bool, true, false, Option, some, ◌==◌, if◌then◌else◌}
use webhook_recovery.Conductor.Leader.{AdvisoryLock, Trouble, acquire, release}

-- The conductors: the lock, the session of each one's connection, and the sessions that have ended.
pub record Conductors (db : AdvisoryLock) : Type 0 where
  pub lock : db.State
  pub conns : ℕ → Option ℕ
  pub ended : ℕ → Bool

abbrev pub set_conn : ℕ → Option ℕ → (ℕ → Option ℕ) → ℕ → Option ℕ
set_conn p conn conns q = if p == q then conn else conns q

abbrev pub set_ended : ℕ → (ℕ → Bool) → ℕ → Bool
set_ended s ended t = if s == t then true else ended t

module _ (db : AdvisoryLock) where
  abbrev pub after_acquire : ℕ → ℕ → Trouble → Conductors db → Conductors db
  after_acquire p session how c =
      let (lock, conn, result) = acquire db session how c.lock (c.conns p) in
      record { lock = lock; conns = set_conn p conn c.conns; ended = c.ended }

  abbrev pub after_release : ℕ → Bool → Conductors db → Conductors db
  after_release p unlocks c =
      let (lock, conn) = release db unlocks c.lock (c.conns p) in
      record { lock = lock; conns = set_conn p conn c.conns; ended = c.ended }

  abbrev pub after_end : ℕ → Conductors db → Conductors db
  after_end s c = record {
    lock = db.end_session s c.lock;
    conns = c.conns;
    ended = set_ended s c.ended;
  }

  -- `pool_of` says of each session which conductor's pool has it: the process that opened it.
  module _ (pool_of : ℕ → ℕ) where
    pub data Turn (c : Conductors db) : Conductors db → Type 0 where
      -- A conductor acquires, with any session of its own pool.
      acquires :
          (p session : ℕ) (how : Trouble)
          → pool_of session ≡ p
          → Turn c (after_acquire p session how c)
      releases : (p : ℕ) (unlocks : Bool) → Turn c (after_release p unlocks c)
      -- A session ends: its process dies, its connection is lost, or its pool discards it.
      ends : (s : ℕ) → Turn c (after_end s c)

    pub data Turns (c : Conductors db) : Conductors db → Type 0 where
      start : Turns c c
      later : {d e : Conductors db} → Turns c d → Turn d e → Turns c e

    -- A connection is of a session of the conductor's own pool, and has the lock until that session
    -- ends.
    pub record IsFenced (c : Conductors db) : Type 0 where
      pub own : (p s : ℕ) → c.conns p ≡ some s → c.ended s ≡ false → db.holds s c.lock ≡ true
      pub pooled : (p s : ℕ) → c.conns p ≡ some s → pool_of s ≡ p
