-- ===== src/Conductor/Leader/Single.antt =====
-- At most one conductor leads, and what a failed unlock leaves behind.
use webhook_recovery.Prelude.{
  ℕ, ◌≡◌, refl, ap, sym, ◌∙◌, inl, inr, true, false, none, some, ◌==◌, ==_iff, arith, Bool-cases,
}
use webhook_recovery.Conductor.Leader.{AdvisoryLock, no_trouble, stands_by, acquire, release}
use webhook_recovery.Conductor.Leader.Turns.{
  Conductors, after_release, Turn, acquires, releases, ends, Turns, start, later, IsFenced,
}
use webhook_recovery.Conductor.Leader.Fenced.{acquires-IsFenced, releases-IsFenced, ends-IsFenced}

module _ (db : AdvisoryLock) (pool_of : ℕ → ℕ) where
  Turn-IsFenced :
      (c d : Conductors db) → Turn db pool_of c d → IsFenced db pool_of c → IsFenced db pool_of d
  Turn-IsFenced c d (acquires p session how mine) f =
      acquires-IsFenced db pool_of c f p session how mine
  Turn-IsFenced c d (releases p unlocks) f = releases-IsFenced db pool_of c f p unlocks
  Turn-IsFenced c d (ends s) f = ends-IsFenced db pool_of c f s

  pub Turns-IsFenced :
      (c d : Conductors db) → Turns db pool_of c d → IsFenced db pool_of c → IsFenced db pool_of d
  Turns-IsFenced c d start f = f
  Turns-IsFenced c e (later {d} r t) f = Turn-IsFenced d e t (Turns-IsFenced c d r f)

  -- One leader at a time. Each session is of the pool of one conductor, and after any turns from a
  -- fenced state conductors have acquired with a session of their own pool, with or without trouble,
  -- have released, whether or not the unlock failed, and sessions have ended: two conductors with
  -- connections whose sessions have not ended are one conductor.
  pub one_leader :
      (c d : Conductors db) (p q s t : ℕ)
      → IsFenced db pool_of c
      → Turns db pool_of c d
      → d.conns p ≡ some s
      → d.conns q ≡ some t
      → d.ended s ≡ false
      → d.ended t ≡ false
      → p ≡ q
  one_leader c d p q s t f r e g live live' =
      let h = Turns-IsFenced c d r f in
      let same = db.one_holder s t d.lock (h.own p s e live) (h.own q t g live') in
      sym (h.pooled p s e) ∙ ap pool_of same ∙ h.pooled q t g

  refused :
      (s t : ℕ) (lock : db.State)
      → (s == t) ≡ false
      → db.holds s lock ≡ true
      → (db.try_lock t lock).1 ≡ false
  refused s t lock n h = elim (Bool-cases (db.try_lock t lock).1) [
    | inr k ↦ k
    | inl k ↦
        let same =
          db.one_holder s t (db.try_lock t lock).0 (db.try_keeps t s lock h) (db.taken t lock k) in
        let bad : true ≡ false = sym ((==_iff s t).1 same) ∙ n in cc
  ]

  -- A release whose unlock fails does not give the lock up. After any turns from a fenced state, a
  -- conductor that leads on a session that has not ended, and releases without its unlock getting
  -- through, is left without a connection, and any acquire that uses another session than that one,
  -- by any conductor without a connection, the same one included, stands by.
  pub stranded_lock :
      (c d : Conductors db) (p q s t : ℕ)
      → IsFenced db pool_of c
      → Turns db pool_of c d
      → d.conns p ≡ some s
      → d.ended s ≡ false
      → (s == t) ≡ false
      → (after_release db p false d).conns q ≡ none
      → let out = after_release db p false d in
        (out.conns p ≡ none) × ((acquire db t no_trouble out.lock (out.conns q)).2 ≡ stands_by)
  unfolding acquire release
  stranded_lock c d p q s t f r e live n idle =
      let h = Turns-IsFenced c d r f in
      let no = refused s t d.lock n (h.own p s e live) in
      let kept : (after_release db p false d).lock ≡ d.lock = rw e refl in
      (rw e (ground arith), rw (idle, kept, no, acquire) refl)
