-- ===== src/Analysis/Llm/Gemini.antt =====
-- `GeminiLLM._generate` of backend/analysis/llm.py: the throttle, the requests and their retries.
use callsense.Prelude.{
  ℕ, zero, suc, ◌+◌, ◌-◌, ◌*◌, ◌^◌, Bool, false, ◌&&◌, ◌||◌, Option, none, some, List, [], ◌∷◌,
  ◌==◌, ltb, leb, if◌then◌else◌, codes, contains,
}
use callsense.Double.{round_div}
use callsense.Models.Tables.{Text}
use callsense.Analysis.Llm.{or_empty}

-- Any of the tokens in the upper-case text of an error.
abbrev retryable_tokens : List Text
retryable_tokens =
    codes "429"
    ∷ codes "RESOURCE_EXHAUSTED"
    ∷ codes "QUOTA"
    ∷ codes "503"
    ∷ codes "UNAVAILABLE"
    ∷ codes "OVERLOAD"
    ∷ codes "HIGH DEMAND"
    ∷ []

abbrev any_in : List Text → Text → Bool
any_in [] s = false
any_in (token ∷ tokens) s = contains token s || any_in tokens s

unfoldable pub is_retryable : (Text → Text) → Text → Bool
unfolding contains
is_retryable upper message = any_in retryable_tokens (upper message)

-- The two readings of the clock, before and after the sleep.
pub record Reading : Type 0 where
  pub now : ℕ
  pub later : ℕ

abbrev pub wait_for : ℕ → ℕ → Reading → ℕ
wait_for min_interval last_call_at r = (min_interval + last_call_at) - r.now

-- What `_last_call_at` is after a call; `wait_for` is the time slept, if any.
unfoldable pub throttle : ℕ → ℕ → Reading → ℕ
throttle min_interval last_call_at r = if min_interval == 0 then last_call_at else r.later

-- min(30.0, 2 ** attempt)
abbrev pub capped : ℕ → ℕ
capped attempt = if leb (2 ^ attempt) 30 then 2 ^ attempt else 30

-- That many seconds * random.uniform(0.7, 1.3), where `random.random()` gives `random` / 2^53: the
-- exact product, to the nearest microsecond, where the code multiplies doubles.
unfoldable pub delay : ℕ → ℕ → ℕ
delay attempt random = round_div (capped attempt * 100_000 * (7 * 2 ^ 53 + 6 * random)) (2 ^ 53)

-- One request to the provider: a text or none, or an exception with its text.
pub data Reply : Type 0 where
  answered : Option Text → Reply
  failed : Text → Reply

-- `no_exception`: `raise None`, which is a TypeError.
pub data Outcome : Type 0 where
  returned : Text → Outcome
  raised : Text → Outcome
  no_exception : Outcome

abbrev raise_last : Option Text → Outcome
raise_last none = no_exception
raise_last (some e) = raised e

-- What a call of `_generate` meets at each attempt: the clock, the answer and a random number.
pub record Provider : Type 0 where
  pub reading : ℕ → Reading
  pub reply : ℕ → Reply
  pub random : ℕ → ℕ

-- What a call of `_generate` does: the answer, the number of requests, the time slept between
-- them, and `_last_call_at` at the end.
pub record Run : Type 0 where
  pub outcome : Outcome
  pub requests : ℕ
  pub slept : List ℕ
  pub last_call_at : ℕ

-- A further attempt after a delay, and the end of the loop at an attempt.
abbrev pub after_delay : ℕ → Run → Run
after_delay wait rest = record {
  outcome = rest.outcome;
  requests = suc rest.requests;
  slept = wait ∷ rest.slept;
  last_call_at = rest.last_call_at;
}

abbrev pub ended : Outcome → ℕ → Run
ended outcome stamp = record { outcome = outcome; requests = 1; slept = []; last_call_at = stamp }

module _ (upper : Text → Text) (min_interval max_retries : ℕ) (provider : Provider) where
  -- `is_retryable(exc) and attempt < self.max_retries`
  abbrev pub on_reply : ℕ → ℕ → (Text → Run) → Reply → Run
  on_reply attempt stamp rest (answered t) = ended (returned (or_empty t)) stamp
  on_reply attempt stamp rest (failed e) =
      if is_retryable upper e && ltb attempt max_retries
      then after_delay (delay attempt (provider.random attempt)) (rest e)
      else ended (raised e) stamp

  -- for attempt in range(attempt, attempt + n)
  unfoldable pub attempts_from : ℕ → ℕ → Option Text → ℕ → Run
  unfolding throttle
  attempts_from zero attempt last last_call_at = record {
    outcome = raise_last last;
    requests = 0;
    slept = [];
    last_call_at = last_call_at;
  }
  attempts_from (suc n) attempt last last_call_at =
      let stamp = throttle min_interval last_call_at (provider.reading attempt) in
      let rest = λ (e : Text). attempts_from n (suc attempt) (some e) stamp in
      on_reply attempt stamp rest (provider.reply attempt)

  unfoldable pub generate : ℕ → Run
  unfolding attempts_from
  generate last_call_at = attempts_from max_retries 1 none last_call_at
