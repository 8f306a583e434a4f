-- ===== src/Analysis/Llm/Spacing.antt =====
-- How long the client of backend/analysis/llm.py waits: between two requests, and after a failure.
use callsense.Prelude.{
  ℕ, zero, suc, ◌+◌, ◌*◌, ◌^◌, ◌≤◌, ◌<◌, ◌&&◌, Option, none, some, inl, inr, arith, ltb, All,
  Bool-cases,
}
use callsense.Double.{round_div-le, round_div-ge}
use callsense.Models.Tables.{Text}
use callsense.Analysis.Llm.Gemini.{
  is_retryable, capped, delay, Reading, wait_for, throttle, Reply, answered, failed, Provider, Run,
  attempts_from, generate, on_reply,
}

spread_ge : (m r : ℕ) → 2 ≤ m → 1_400_000 * 2 ^ 53 ≤ m * 100_000 * (7 * 2 ^ 53 + 6 * r)
spread_ge m r h = grind arith

spread_le :
    (m r : ℕ) → m ≤ 30 → r < 2 ^ 53 → m * 100_000 * (7 * 2 ^ 53 + 6 * r) ≤ 39_000_000 * 2 ^ 53
spread_le m r h k = grind arith

two_le_pow : (n : ℕ) → 2 ≤ 2 ^ suc n
two_le_pow zero = omega arith
two_le_pow (suc n) = let rest = two_le_pow n in grind arith

capped_bounds : (n : ℕ) → (2 ≤ capped (suc n)) × (capped (suc n) ≤ 30)
capped_bounds n = let two = two_le_pow n in (ground (arith, two), ground arith)

delay_bounds :
    (attempt random : ℕ)
    → 1 ≤ attempt
    → random < 2 ^ 53
    → (1_400_000 ≤ delay attempt random) × (delay attempt random ≤ 39_000_000)
unfolding delay
delay_bounds zero random first small = absurd (omega (arith, first))
delay_bounds (suc n) random first small =
    let most = capped (suc n) in
    let (low, high) = capped_bounds n in
    let total = most * 100_000 * (7 * 2 ^ 53 + 6 * random) in
    (
      round_div-ge total (2 ^ 53) 1_400_000 (omega arith) (spread_ge most random low),
      round_div-le total (2 ^ 53) 39_000_000 (omega arith) (spread_le most random high small),
    )

abbrev IsDelay : ℕ → Type 0
IsDelay d = (1_400_000 ≤ d) × (d ≤ 39_000_000)

module _ (upper : Text → Text) (min_interval max_retries : ℕ) (provider : Provider)
    (fractions : (attempt : ℕ) → provider.random attempt < 2 ^ 53) where
  on_reply-slept :
      (attempt stamp : ℕ) (rest : Text → Run) (r : Reply)
      → 1 ≤ attempt
      → ((e : Text) → All IsDelay (rest e).slept)
      → All IsDelay (on_reply upper min_interval max_retries provider attempt stamp rest r).slept
  on_reply-slept attempt stamp rest (answered t) first h = tt
  on_reply-slept attempt stamp rest (failed e) first h =
      elim (Bool-cases (is_retryable upper e && ltb attempt max_retries)) [
        | inl t ↦
            rw t (delay_bounds attempt (provider.random attempt) first (fractions attempt), h e)
        | inr t ↦ rw t tt
      ]

  attempts_from-slept :
      (n attempt : ℕ) (last : Option Text) (last_call_at : ℕ)
      → 1 ≤ attempt
      → All IsDelay
          (attempts_from upper min_interval max_retries provider n attempt last last_call_at).slept
  unfolding attempts_from
  attempts_from-slept zero attempt last last_call_at first = tt
  attempts_from-slept (suc n) attempt last last_call_at first =
      let stamp = throttle min_interval last_call_at (provider.reading attempt) in
      on_reply-slept attempt stamp _ (provider.reply attempt) first
        (λ e. attempts_from-slept n (suc attempt) (some e) stamp (omega arith))

  -- Let `random.random()` be a number of 53 bits below 1. Each sleep between two attempts of a call
  -- of `_generate` takes from 1.4 to 39 seconds.
  pub generate-slept :
      (last_call_at : ℕ)
      → All
          (λ d. (1_400_000 ≤ d) × (d ≤ 39_000_000))
          (generate upper min_interval max_retries provider last_call_at).slept
  unfolding generate
  generate-slept last_call_at = attempts_from-slept max_retries 1 none last_call_at (omega arith)

module _ (upper : Text → Text) (min_interval max_retries : ℕ) (provider : Provider) where
  -- From an attempt on, the clock has gone on after each sleep by at least the time slept.
  abbrev pub SleepsOut : ℕ → ℕ → ℕ → Type 0
  SleepsOut zero attempt last_call_at = Unit
  SleepsOut (suc n) attempt last_call_at =
      let r = provider.reading attempt in
      (r.now + wait_for min_interval last_call_at r ≤ r.later)
      × SleepsOut n (suc attempt) (throttle min_interval last_call_at r)

  throttle-spaced :
      (last_call_at : ℕ) (r : Reading)
      → r.now + wait_for min_interval last_call_at r ≤ r.later
      → last_call_at + min_interval ≤ throttle min_interval last_call_at r
  unfolding throttle
  throttle-spaced last_call_at r h = ground arith

  Spaced : ℕ → Run → Type 0
  Spaced last_call_at run = last_call_at + min_interval * run.requests ≤ run.last_call_at

  on_reply-Spaced :
      (attempt last_call_at stamp : ℕ) (rest : Text → Run) (r : Reply)
      → last_call_at + min_interval ≤ stamp
      → ((e : Text) → Spaced stamp (rest e))
      → Spaced last_call_at (on_reply upper min_interval max_retries provider attempt stamp rest r)
  unfolding Spaced
  on_reply-Spaced attempt last_call_at stamp rest (answered t) step h = omega (arith, step)
  on_reply-Spaced attempt last_call_at stamp rest (failed e) step h =
      elim (Bool-cases (is_retryable upper e && ltb attempt max_retries)) [
        | inl t ↦ rw t (omega (arith, step, h e))
        | inr t ↦ rw t (omega (arith, step))
      ]

  attempts_from-Spaced :
      (n attempt : ℕ) (last : Option Text) (last_call_at : ℕ)
      → SleepsOut n attempt last_call_at
      → Spaced last_call_at
          (attempts_from upper min_interval max_retries provider n attempt last last_call_at)
  unfolding attempts_from
  attempts_from-Spaced zero attempt last last_call_at h = unfold Spaced in omega arith
  attempts_from-Spaced (suc n) attempt last last_call_at h =
      let stamp = throttle min_interval last_call_at (provider.reading attempt) in
      on_reply-Spaced attempt last_call_at stamp _ (provider.reply attempt)
        (throttle-spaced last_call_at (provider.reading attempt) h.0)
        (λ e. attempts_from-Spaced n (suc attempt) (some e) stamp h.1)

  -- Let the clock go on, during each sleep, by at least the time slept. The requests of a call of
  -- `_generate` are spaced out: from the last call before it to its own last one there are at least
  -- as many minimal intervals as it makes requests, retries included.
  pub generate-spaced :
      (last_call_at : ℕ)
      → SleepsOut max_retries 1 last_call_at
      → let run = generate upper min_interval max_retries provider last_call_at in
        last_call_at + min_interval * run.requests ≤ run.last_call_at
  unfolding generate Spaced
  generate-spaced last_call_at h = attempts_from-Spaced max_retries 1 none last_call_at h
