-- ===== src/Analysis/Llm/Retry.antt =====
-- How often `_generate` of backend/analysis/llm.py asks the provider, and how it ends.
use mathlib.Core.Path.{subst}
use callsense.Prelude.{
  ℕ, zero, suc, ◌+◌, ◌≤◌, ◌<◌, true, false, ◌&&◌, Option, none, some, ◌≡◌, refl, sym, ap, ◌⊎◌, inl,
  inr, arith, ltb, length, Bool-cases,
}
use callsense.Models.Tables.{Text}
use callsense.Analysis.Llm.{or_empty}
use callsense.Analysis.Llm.Gemini.{
  is_retryable, delay, Reply, answered, failed, Outcome, returned, raised, no_exception, Provider,
  throttle, Run, attempts_from, generate, ended, after_delay, on_reply,
}

-- What the last request decides: its answer is returned, or its error is raised, which is not
-- retryable unless the attempts are used up.
abbrev Decides : (Text → Text) → Reply → Outcome → ℕ → ℕ → Type 0
Decides upper (answered t) outcome attempt max = outcome ≡ returned (or_empty t)
Decides upper (failed e) outcome attempt max =
    (outcome ≡ raised e) × ((is_retryable upper e ≡ false) ⊎ (attempt ≡ max))

module _ (upper : Text → Text) (min_interval max_retries : ℕ) (provider : Provider) where
  -- Requests that failed with a retryable error, from one attempt on.
  abbrev pub Retried : ℕ → ℕ → Type 0
  Retried attempt zero = Unit
  Retried attempt (suc n) =
      ((e : Text) × (provider.reply attempt ≡ failed e) × (is_retryable upper e ≡ true))
      × Retried (suc attempt) n

  abbrev pub Ended : ℕ → Run → ℕ → Type 0
  Ended attempt run k =
      (run.requests ≡ suc k)
      × (length run.slept ≡ k)
      × Retried attempt k
      × Decides upper (provider.reply (attempt + k)) run.outcome (attempt + k) max_retries

  Decides-at :
      (attempt at : ℕ) (r : Reply) (outcome : Outcome)
      → provider.reply at ≡ r
      → Decides upper r outcome attempt max_retries
      → Decides upper (provider.reply at) outcome attempt max_retries
  Decides-at attempt at r outcome e h =
      subst (λ x. Decides upper x outcome attempt max_retries) (sym e) h

  retried :
      (attempt : ℕ) (e : Text) (run : Run) (n : ℕ)
      → provider.reply attempt ≡ failed e
      → is_retryable upper e ≡ true
      → (k : ℕ) × (suc k ≤ n) × Ended (suc attempt) run k
      → (k : ℕ) × (k ≤ n)
        × Ended attempt (after_delay (delay attempt (provider.random attempt)) run) k
  retried attempt e run n r t (k, le, (requests, slept, before, last)) = (
    suc k,
    le,
    (
      ap suc requests,
      ap suc slept,
      ((e, r, t), before),
      subst (λ x. Decides upper (provider.reply x) run.outcome x max_retries) (omega arith) last,
    ),
  )

  stopped :
      (n attempt stamp : ℕ) (r : Reply) (outcome : Outcome)
      → provider.reply attempt ≡ r
      → Decides upper r outcome attempt max_retries
      → (k : ℕ) × (k ≤ n) × Ended attempt (ended outcome stamp) k
  stopped n attempt stamp r outcome e h = (
    0,
    omega arith,
    (
      refl,
      refl,
      tt,
      subst (λ x. Decides upper (provider.reply x) outcome x max_retries) (omega arith)
          (Decides-at attempt attempt r outcome e h),
    ),
  )

  on_reply-Ended :
      (n attempt stamp : ℕ) (rest : Text → Run) (r : Reply)
      → attempt + n ≡ max_retries
      → provider.reply attempt ≡ r
      → ((e : Text) → 1 ≤ n → (k : ℕ) × (suc k ≤ n) × Ended (suc attempt) (rest e) k)
      → (k : ℕ) × (k ≤ n)
        × Ended attempt (on_reply upper min_interval max_retries provider attempt stamp rest r) k
  on_reply-Ended n attempt stamp rest (answered t) left e h =
      stopped n attempt stamp (answered t) (returned (or_empty t)) e refl
  on_reply-Ended zero attempt stamp rest (failed error) left e h =
      let used : ltb attempt max_retries ≡ false = ground arith in
      let off : (is_retryable upper error && ltb attempt max_retries) ≡ false =
        ground (arith, used) in
      rw off (
        stopped zero attempt stamp (failed error) (raised error) e
          (refl, inr (omega (arith, left))))
  on_reply-Ended (suc n) attempt stamp rest (failed error) left e h =
      let more : ltb attempt max_retries ≡ true = ground arith in
      elim (Bool-cases (is_retryable upper error)) [
        | inl t ↦
            rw (t, more) (retried attempt error (rest error) (suc n) e t (h error (omega arith)))
        | inr t ↦ rw t (stopped (suc n) attempt stamp (failed error) (raised error) e (refl, inl t))
      ]

  attempts_from-Ended :
      (n attempt : ℕ) (last : Option Text) (last_call_at : ℕ)
      → attempt + n ≡ max_retries
      → (k : ℕ) × (k ≤ n)
        × Ended attempt
            (attempts_from upper min_interval max_retries provider
              (suc n)
              attempt
              last
              last_call_at)
            k
  unfolding attempts_from
  attempts_from-Ended zero attempt last last_call_at left =
      on_reply-Ended zero attempt _ _ (provider.reply attempt) left refl
        (λ e z. absurd (omega (arith, z)))
  attempts_from-Ended (suc n) attempt last last_call_at left =
      on_reply-Ended (suc n) attempt _ _ (provider.reply attempt) left refl (λ e _.
        let (k, le, h) =
          attempts_from-Ended n (suc attempt) (some e)
            (throttle min_interval last_call_at (provider.reading attempt)) (omega (arith, left)) in
        (k, omega (arith, le), h))

  -- A call of `_generate` with no retries allowed makes no request and raises a TypeError. Any other
  -- makes at least one request and at most `max_retries`; all before the last one failed with a
  -- retryable error, each followed by one sleep; the last one's answer is returned, or its error is
  -- raised, which is not retryable or was met at the last attempt.
  pub generate_lem :
      (last_call_at : ℕ)
      → let run = generate upper min_interval max_retries provider last_call_at in
        ((max_retries ≡ 0) × (run.requests ≡ 0) × (run.outcome ≡ no_exception))
        ⊎ ((k : ℕ) × (k < max_retries) × Ended 1 run k)
  unfolding generate
  generate_lem last_call_at = go max_retries refl
    where
      go :
          (n : ℕ)
          → max_retries ≡ n
          → let run = attempts_from upper min_interval max_retries provider n 1 none last_call_at in
            ((max_retries ≡ 0) × (run.requests ≡ 0) × (run.outcome ≡ no_exception))
            ⊎ ((k : ℕ) × (k < max_retries) × Ended 1 run k)
      go zero e = unfold attempts_from in inl (e, refl, refl)
      go (suc n) e =
          let (k, le, h) = attempts_from-Ended n 1 none last_call_at (omega (arith, e)) in
          inr (k, omega (arith, le, e), h)
