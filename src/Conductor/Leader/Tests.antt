-- ===== src/Conductor/Leader/Tests.antt =====
-- A lock that is the session that has it, and two conductors.
use webhook_recovery.Prelude.{
  ℕ, ◌≡◌, refl, sym, ◌∙◌, Bool, true, false, Option, none, some, ◌==◌, ==_iff, if◌then◌else◌, arith,
}
use webhook_recovery.Conductor.Leader.{AdvisoryLock, no_trouble, stands_by, acquire, release}
use webhook_recovery.Conductor.Leader.Turns.{
  Conductors, after_acquire, after_release, acquires, Turns, start, later, IsFenced,
}
use webhook_recovery.Conductor.Leader.Single.{one_leader, stranded_lock}

abbrev has : ℕ → Option ℕ → Bool
has s none = false
has s (some t) = s == t

abbrev try : ℕ → Option ℕ → Option ℕ × Bool
try s none = (some s, true)
try s (some t) = (some t, s == t)

abbrev drop : ℕ → Option ℕ → Option ℕ
drop s none = none
drop s (some t) = if s == t then none else some t

one-has : (s t : ℕ) (lock : Option ℕ) → has s lock ≡ true → has t lock ≡ true → s ≡ t
one-has s t none h k = cc
one-has s t (some u) h k = (==_iff s u).0 h ∙ sym ((==_iff t u).0 k)

try-has : (s : ℕ) (lock : Option ℕ) → (try s lock).1 ≡ true → has s (try s lock).0 ≡ true
try-has s none h = ground arith
try-has s (some t) h = h

try_stays : (s t : ℕ) (lock : Option ℕ) → has t lock ≡ true → has t (try s lock).0 ≡ true
try_stays s t none h = cc
try_stays s t (some u) h = h

drop_stays :
    (s t : ℕ) (lock : Option ℕ) → (s == t) ≡ false → has t lock ≡ true → has t (drop s lock) ≡ true
drop_stays s t none n h = cc
drop_stays s t (some u) n h = ground (arith, n, h)

abbrev one_lock : AdvisoryLock
one_lock = record {
  State = Option ℕ;
  holds = has;
  try_lock = try;
  unlock = drop;
  end_session = drop;
  one_holder = one-has;
  taken = try-has;
  try_keeps = try_stays;
  unlock_keeps = drop_stays;
  end_keeps = drop_stays;
}

abbrev nobody_leads : Conductors one_lock
nobody_leads = record { lock = none; conns = λ p. none; ended = λ s. false }

-- Sessions 5 and 7 are of the pool of conductor 3, the others of that of conductor 4.
abbrev pools : ℕ → ℕ
pools s = if s == 5 then 3 else if s == 7 then 3 else 4

nobody_leads-IsFenced : IsFenced one_lock pools nobody_leads
nobody_leads-IsFenced = record { own = λ p s e live. cc; pooled = λ p s e. cc }

-- Conductor 3 leads on session 5; conductor 4 has tried on session 6.
abbrev three_leads : Conductors one_lock
three_leads = after_acquire one_lock 3 5 no_trouble nobody_leads

abbrev four_waits : Conductors one_lock
four_waits = after_acquire one_lock 4 6 no_trouble three_leads

two_turns : Turns one_lock pools nobody_leads four_waits
two_turns = later (later start (acquires 3 5 no_trouble refl)) (acquires 4 6 no_trouble refl)

one_leader_example : ◌≡◌ {A = ℕ} 3 3
unfolding acquire
one_leader_example =
    one_leader one_lock pools nobody_leads four_waits 3 3 5 5 nobody_leads-IsFenced two_turns refl
      refl refl refl

-- Its release fails to unlock session 5, and then conductor 3 itself, on session 7, cannot lead.
stranded_lock_example :
    let out = after_release one_lock 3 false four_waits in
    (out.conns 3 ≡ none) × ((acquire one_lock 7 no_trouble out.lock (out.conns 3)).2 ≡ stands_by)
unfolding acquire release
stranded_lock_example =
    stranded_lock one_lock pools nobody_leads four_waits 3 3 5 7 nobody_leads-IsFenced two_turns
      refl refl refl refl
