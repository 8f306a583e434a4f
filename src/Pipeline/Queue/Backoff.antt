-- ===== src/Pipeline/Queue/Backoff.antt =====
-- The delay before a retry.
use native.Mathlib.Nat.{mul_assoc}
use callsense.Prelude.{ℕ, ◌+◌, ◌-◌, ◌*◌, ◌^◌, ◌≤◌, ◌<◌, ◌≡◌, ap, arith}
use callsense.Double.{round_div-le, round_div-ge}
use callsense.Pipeline.Queue.{Settings, backoff}

spread_ge : (x k : ℕ) → x * 2 ^ 53 ≤ 2 * x * (2 ^ 52 + k)
spread_ge x k = grind arith

spread_le : (x k : ℕ) → k < 2 ^ 53 → 2 * x * (2 ^ 52 + k) ≤ 3 * x * 2 ^ 53
spread_le x k h = grind arith

-- For an even base, the delay after attempt n has failed is from a half of the base times 2^(n - 1)
-- to three halves of it.
pub backoff_bounds :
    (settings : Settings) (attempt random half : ℕ)
    → settings.job_backoff_base ≡ 2 * half
    → random < 2 ^ 53
    → (half * 2 ^ (attempt - 1) ≤ backoff settings attempt random)
      × (backoff settings attempt random ≤ 3 * (half * 2 ^ (attempt - 1)))
unfolding backoff
backoff_bounds settings attempt random half even h =
    let unit = half * 2 ^ (attempt - 1) in
    let n = settings.job_backoff_base * 2 ^ (attempt - 1) * (2 ^ 52 + random) in
    let e : n ≡ 2 * unit * (2 ^ 52 + random) =
      rw even (ap (λ (t : ℕ). t * (2 ^ 52 + random)) (mul_assoc 2 half (2 ^ (attempt - 1)))) in
    (
      round_div-ge n (2 ^ 53) unit (omega arith) (rw e (spread_ge unit random)),
      round_div-le n (2 ^ 53) (3 * unit) (omega arith) (rw e (spread_le unit random h)),
    )
