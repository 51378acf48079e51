-- ===== src/Core/Runner/Tests.antt =====
-- A process whose database is ready at its fourth attempt.
use webhook_recovery.Prelude.{ℕ, zero, suc, ◌+◌, ◌*◌, ◌≤◌, ◌≡◌, inr, false, some, leb, arith}
use webhook_recovery.Core.Runner.{Registration, Boot, register_when_ready}
use webhook_recovery.Core.Runner.Ready.{delays, Waits, register_when_ready_ends}

abbrev slow : Boot
slow = record { succeeds = λ n. leb 3 n; time = λ n. 10 + n * 5_000_000; stops = λ n. false }

delays_most : (n : ℕ) → delays n ≤ 5_000_000
delays_most zero = omega arith
delays_most (suc n) = omega arith

slow-Waits : Waits slow 10
slow-Waits = (omega arith, λ n. inr (omega (arith, delays_most n)))

register_when_ready_ends_example : (r : Registration) × (register_when_ready 241 slow 10 ≡ some r)
register_when_ready_ends_example = register_when_ready_ends slow 10 slow-Waits
