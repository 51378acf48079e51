-- ===== src/Core/Runner/Ready.antt =====
-- A process that boots gives up or is registered, in time.
use webhook_recovery.Prelude.{
  ℕ, zero, suc, ◌+◌, ◌*◌, ◌≤◌, ◌≡◌, refl, ◌⊎◌, inl, inr, true, some, leb, min, arith, Bool-cases,
  ◌||◌,
}
use webhook_recovery.Core.Runner.{
  register_timeout, register_retry_initial, register_retry_max, Registration, registered, raised,
  Boot, attempts, register_when_ready,
}

-- The delay after an attempt that fails.
abbrev pub delays : ℕ → ℕ
delays zero = register_retry_initial
delays (suc n) = min (delays n * 2) register_retry_max

-- Each wait takes its delay, unless a stop request cuts it short, which the next attempt finds.
abbrev pub Waits : Boot → ℕ → Type 0
Waits boot started =
    (started ≤ boot.time 0)
    × ((n : ℕ) → (boot.stops (suc n) ≡ true) ⊎ (boot.time n + delays n ≤ boot.time (suc n)))

delays_least : (n : ℕ) → register_retry_initial ≤ delays n
delays_least zero = omega arith
delays_least (suc n) = omega (arith, delays_least n)

module _ (boot : Boot) (deadline : ℕ)
    (waits : (n : ℕ)
      → (boot.stops (suc n) ≡ true) ⊎ (boot.time n + delays n ≤ boot.time (suc n))) where
  attempts-stops :
      (n delay fuel : ℕ)
      → boot.stops n ≡ true
      → (r : Registration) × (attempts boot deadline n delay (suc fuel) ≡ some r)
  unfolding attempts
  attempts-stops n delay fuel h = elim (Bool-cases (boot.succeeds n)) [
    | inl e ↦ (registered, rw e refl)
    | inr e ↦ (raised, ground (arith, e, h))
  ]

  attempts_end :
      (fuel n : ℕ)
      → deadline ≤ boot.time n + register_retry_initial * fuel
      → (r : Registration) × (attempts boot deadline n (delays n) (suc fuel) ≡ some r)
  unfolding attempts
  attempts_end zero n h =
      let late : leb deadline (boot.time n) ≡ true = ground (arith, h) in
      elim (Bool-cases (boot.succeeds n)) [
        | inl e ↦ (registered, rw e refl)
        | inr e ↦ (raised, rw (e, late) refl)
      ]
  attempts_end (suc fuel) n h = elim (Bool-cases (boot.succeeds n)) [
    | inl e ↦ (registered, rw e refl)
    | inr e ↦ elim (Bool-cases (leb deadline (boot.time n) || boot.stops n)) [
      | inl g ↦ (raised, rw (e, g) refl)
      | inr g ↦
          let (r, k) : (r : Registration) × (attempts boot deadline (suc n) (delays (suc n))
                  (suc fuel)
                ≡ some r) =
            elim (waits n) [
              | inl stop ↦ attempts-stops (suc n) (delays (suc n)) fuel stop
              | inr waited ↦ attempts_end fuel (suc n) (omega (arith, h, waited, delays_least n))
            ] in
          (r, rw (e, g) k)
    ]
  ]

-- Booting ends. Where each wait takes its delay or is cut short by a stop request, and the clock does
-- not read a time before the start, a process that boots makes at most 241 attempts, and then is
-- registered or has raised: it does not retry for ever.
pub register_when_ready_ends :
    (boot : Boot) (started : ℕ)
    → Waits boot started
    → (r : Registration) × (register_when_ready 241 boot started ≡ some r)
unfolding register_when_ready
register_when_ready_ends boot started (begins, waits) =
    attempts_end boot (started + register_timeout) waits 240 0 (omega (arith, begins))
