-- ===== src/Conductor/Leader/Fenced.antt =====
-- What each turn at the leader lock keeps.
use webhook_recovery.Prelude.{
  ℕ, ◌≡◌, ap, sym, subst, ◌∙◌, ◌⊎◌, inl, inr, Bool, true, false, Option, none, some, ◌==◌, ==_iff,
  arith, Bool-cases, Option-cases,
}
use webhook_recovery.Conductor.Leader.{
  AdvisoryLock, Trouble, no_session, no_query, no_answer, no_trouble, acquire, release,
}
use webhook_recovery.Conductor.Leader.Turns.{
  Conductors, set_conn, after_acquire, after_release, after_end, IsFenced,
}

conn_at :
    (p : ℕ) (conn : Option ℕ) (conns : ℕ → Option ℕ) (q s : ℕ)
    → set_conn p conn conns q ≡ some s
    → ((p == q) ≡ true) × (conn ≡ some s) ⊎ ((p == q) ≡ false) × (conns q ≡ some s)
conn_at p conn conns q s e = elim (Bool-cases (p == q)) [
  | inl h ↦ inl (h, rw h at e)
  | inr h ↦ inr (h, rw h at e)
]

module _ (db : AdvisoryLock) (pool_of : ℕ → ℕ) (c : Conductors db) (f : IsFenced db pool_of c)
    (p : ℕ) where
  -- The conductor's own connection changes with the lock.
  changed-IsFenced :
      (lock : db.State) (conn : Option ℕ)
      → ((s : ℕ) → conn ≡ some s → c.ended s ≡ false → db.holds s lock ≡ true)
      → ((s : ℕ) → conn ≡ some s → pool_of s ≡ p)
      → ((t : ℕ) → (pool_of t == p) ≡ false → db.holds t c.lock ≡ true → db.holds t lock ≡ true)
      → IsFenced db pool_of
          (record { lock = lock; conns = set_conn p conn c.conns; ended = c.ended })
  changed-IsFenced lock conn own pooled keeps = record {
    own = λ q s e live. elim (conn_at p conn c.conns q s e) [
      | inl (h, k) ↦ own s k live
      | inr (h, k) ↦ let mine = f.pooled q s k in keeps s (ground (arith, mine)) (f.own q s k live)
    ];
    pooled = λ q s e. elim (conn_at p conn c.conns q s e) [
      | inl (h, k) ↦ pooled s k ∙ (==_iff p q).0 h
      | inr (h, k) ↦ f.pooled q s k
    ];
  }

  none_conn : {A : Type 0} (s : ℕ) → none ≡ some s → A
  none_conn s e = cc

  same_conn : (s t : ℕ) → some s ≡ some t → s ≡ t
  same_conn s t e = cc

  idle-IsFenced :
      (lock : db.State)
      → ((t : ℕ) → (pool_of t == p) ≡ false → db.holds t c.lock ≡ true → db.holds t lock ≡ true)
      → IsFenced db pool_of
          (record { lock = lock; conns = set_conn p none c.conns; ended = c.ended })
  idle-IsFenced lock keeps =
      changed-IsFenced lock none (λ s e live. none_conn s e) (λ s e. none_conn s e) keeps

  opened-IsFenced :
      (session : ℕ) (how : Trouble)
      → pool_of session ≡ p
      → let (lock, conn, result) = acquire db session how c.lock none in
        IsFenced db pool_of
          (record { lock = lock; conns = set_conn p conn c.conns; ended = c.ended })
  unfolding acquire
  opened-IsFenced session no_session mine = idle-IsFenced c.lock (λ t n h. h)
  opened-IsFenced session no_query mine = idle-IsFenced c.lock (λ t n h. h)
  opened-IsFenced session no_answer mine =
      idle-IsFenced (db.try_lock session c.lock).0 (λ t n. db.try_keeps session t c.lock)
  opened-IsFenced session no_trouble mine =
      let lock = (db.try_lock session c.lock).0 in
      elim (Bool-cases (db.try_lock session c.lock).1) [
        | inl got ↦
            rw (got, acquire)
              (changed-IsFenced lock (some session)
                (λ s e live.
                  subst (λ x. db.holds x lock ≡ true) (same_conn session s e)
                    (db.taken session c.lock got))
                (λ s e. subst (λ x. pool_of x ≡ p) (same_conn session s e) mine)
                (λ t n. db.try_keeps session t c.lock))
        | inr not_got ↦
            rw (not_got, acquire) (idle-IsFenced lock (λ t n. db.try_keeps session t c.lock))
      ]

  kept-IsFenced :
      (conn : Option ℕ)
      → c.conns p ≡ conn
      → IsFenced db pool_of
          (record { lock = c.lock; conns = set_conn p conn c.conns; ended = c.ended })
  kept-IsFenced conn e =
      changed-IsFenced c.lock conn (λ s k. f.own p s (e ∙ k)) (λ s k. f.pooled p s (e ∙ k))
        (λ t n h. h)

  pub acquires-IsFenced :
      (session : ℕ) (how : Trouble)
      → pool_of session ≡ p
      → IsFenced db pool_of (after_acquire db p session how c)
  unfolding acquire
  acquires-IsFenced session how mine = elim (Option-cases (c.conns p)) [
    | inr (conn, e) ↦ rw e (kept-IsFenced (some conn) e)
    | inl e ↦ rw e (opened-IsFenced session how mine)
  ]

  closed-IsFenced :
      (s : ℕ) (unlocks : Bool)
      → c.conns p ≡ some s
      → let (lock, conn) = release db unlocks c.lock (some s) in
        IsFenced db pool_of
          (record { lock = lock; conns = set_conn p conn c.conns; ended = c.ended })
  unfolding release
  closed-IsFenced s true e =
      let mine = f.pooled p s e in
      idle-IsFenced (db.unlock s c.lock) (λ t n.
        db.unlock_keeps s t c.lock (elim (Bool-cases (s == t)) [
          | inr k ↦ k
          | inl k ↦
              let same : pool_of t ≡ p = ap pool_of (sym ((==_iff s t).0 k)) ∙ mine in
              let bad : true ≡ false = sym ((==_iff (pool_of t) p).1 same) ∙ n in cc
        ]))
  closed-IsFenced s false e = idle-IsFenced c.lock (λ t n h. h)

  pub releases-IsFenced : (unlocks : Bool) → IsFenced db pool_of (after_release db p unlocks c)
  unfolding release
  releases-IsFenced unlocks = elim (Option-cases (c.conns p)) [
    | inl e ↦ rw e (kept-IsFenced none e)
    | inr (s, e) ↦ rw e (closed-IsFenced s unlocks e)
  ]

pub ends-IsFenced :
    (db : AdvisoryLock) (pool_of : ℕ → ℕ) (c : Conductors db)
    → IsFenced db pool_of c
    → (s : ℕ) → IsFenced db pool_of (after_end db s c)
ends-IsFenced db pool_of c f s = record {
  own = λ p t e live.
      let n : (s == t) ≡ false = ground (arith, live) in
      db.end_keeps s t c.lock n (f.own p t e (ground (arith, live)));
  pooled = f.pooled;
}
