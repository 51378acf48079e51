-- ===== src/Worker/Backoff.antt =====
-- app/worker/claim.py, `backoff_s`: the delay before a retry.
use native.Mathlib.Nat.{pow-suc}
use webhook_recovery.Prelude.{ℕ, zero, suc, ◌*◌, ◌/◌, ◌^◌, ◌≤◌, ◌≡◌, refl, arith, min}
use webhook_recovery.Core.Settings.{Settings}

-- `base * 2 ** (attempt_no - 1)`, capped. At 0 the power is a half.
pub backoff_s : Settings → ℕ → ℕ
backoff_s settings zero =
    min (settings.retry_backoff_base_virtual_s / 2) settings.retry_backoff_cap_virtual_s
backoff_s settings (suc n) =
    min (settings.retry_backoff_base_virtual_s * 2 ^ n) settings.retry_backoff_cap_virtual_s

-- Each attempt doubles the delay up to the cap, so a later attempt never waits less, and no delay
-- passes the cap.
pub backoff_doubles :
    (settings : Settings) (n : ℕ)
    → (backoff_s settings (suc (suc n))
        ≡ min (2 * backoff_s settings (suc n)) settings.retry_backoff_cap_virtual_s)
      × (backoff_s settings (suc n) ≤ backoff_s settings (suc (suc n)))
      × (backoff_s settings (suc n) ≤ settings.retry_backoff_cap_virtual_s)
unfolding backoff_s
backoff_doubles settings n =
    let base = settings.retry_backoff_base_virtual_s in
    let twice : base * 2 ^ suc n ≡ 2 * (base * 2 ^ n) = rw (pow-suc 2 n) (omega arith) in
    (omega (arith, twice), omega (arith, twice), omega arith)

-- The delay after attempt `n`: half the base, doubled with each attempt, up to the cap.
abbrev pub retry_delay : Settings → ℕ → ℕ
retry_delay settings n =
    min (settings.retry_backoff_base_virtual_s * 2 ^ n / 2) settings.retry_backoff_cap_virtual_s

double_half : (m : ℕ) → (2 * m) / 2 ≡ m
double_half m = omega arith

pub backoff_s-retry_delay :
    (settings : Settings) (n : ℕ) → backoff_s settings n ≡ retry_delay settings n
unfolding backoff_s
backoff_s-retry_delay settings zero = omega arith
backoff_s-retry_delay settings (suc n) =
    let base = settings.retry_backoff_base_virtual_s in
    let twice : base * 2 ^ suc n ≡ 2 * (base * 2 ^ n) = rw (pow-suc 2 n) (omega arith) in
    rw (twice, double_half (base * 2 ^ n)) refl
