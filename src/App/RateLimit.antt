-- ===== src/App/RateLimit.antt =====
-- backend/app/ratelimit.py: a sliding window of uploads for each address. Times are microseconds of
-- a clock that does not go back.
pub mod Window
use callsense.Prelude.{
  ℕ, ◌+◌, ◌-◌, ◌/◌, ◌*◌, Bool, true, false, ◌&&◌, Option, none, some, List, [], ◌∷◌, ◌++◌, ◌==◌,
  ltb, leb, if◌then◌else◌, length, codes,
}
use callsense.Models.Tables.{Text}
use callsense.Pipeline.Queue.{second}

pub record RateLimiter : Type 0 where
  pub max_requests : ℕ
  pub window : ℕ

abbrev pub upload_rate_limit : RateLimiter
upload_rate_limit = record { max_requests = 10; window = 60 * second }

abbrev pub text_eq : Text → Text → Bool
text_eq [] [] = true
text_eq [] (d ∷ t) = false
text_eq (c ∷ s) [] = false
text_eq (c ∷ s) (d ∷ t) = c == d && text_eq s t

-- fwd.split(",")[0]
unfoldable pub before_comma : Text → Text
before_comma [] = []
before_comma (c ∷ s) = let rest = before_comma s in if c == b',' then [] else c ∷ rest

abbrev host_or_unknown : Option Text → Text
host_or_unknown none = codes "unknown"
host_or_unknown (some host) = host

abbrev or_host : Option Text → Text → Text
or_host host [] = host_or_unknown host
or_host host (c ∷ ip) = c ∷ ip

-- The first address of X-Forwarded-For, or else the peer's. `strip` is str.strip.
unfoldable pub client_ip : (Text → Text) → Option Text → Option Text → Text
unfolding before_comma
client_ip strip none host = host_or_unknown host
client_ip strip (some []) host = host_or_unknown host
client_ip strip (some (c ∷ fwd)) host = or_host host (strip (before_comma (c ∷ fwd)))

-- `_hits`, a defaultdict(deque), oldest hit first.
abbrev pub Hits : Type 0
Hits = List (Text × List ℕ)

unfoldable pub get_hits : Text → Hits → List ℕ
get_hits ip [] = []
get_hits ip ((k, hits) ∷ rest) = if text_eq k ip then hits else get_hits ip rest

unfoldable pub set_hits : Text → List ℕ → Hits → Hits
set_hits ip hits [] = (ip, hits) ∷ []
set_hits ip hits ((k, old) ∷ rest) =
    let later = set_hits ip hits rest in if text_eq k ip then (k, hits) ∷ rest else (k, old) ∷ later

-- while hits and now - hits[0] > self.window_s
unfoldable pub expire : ℕ → ℕ → List ℕ → List ℕ
expire window now [] = []
expire window now (h ∷ hits) =
    let rest = expire window now hits in if ltb (h + window) now then rest else h ∷ hits

-- Refused with 429, and the seconds of Retry-After.
pub data Admission : Type 0 where
  admitted : Admission
  too_many : ℕ → Admission

-- int(self.window_s - (now - hits[0])) + 1; a limit of 0, where hits[0] could be missing, is not set.
abbrev pub retry_after : RateLimiter → ℕ → List ℕ → ℕ
retry_after limiter now [] = 0
retry_after limiter now (h ∷ hits) = (limiter.window - (now - h)) / second + 1

unfoldable pub admit : RateLimiter → Text → ℕ → Hits → Admission × Hits
admit limiter ip now hits =
    let recent = expire limiter.window now (get_hits ip hits) in
    if leb limiter.max_requests (length recent)
    then (too_many (retry_after limiter now recent), set_hits ip recent hits)
    else (admitted, set_hits ip (recent ++ now ∷ []) hits)

abbrev pub noted : Text × ℕ → Admission → List (Text × ℕ) → List (Text × ℕ)
noted request admitted rest = request ∷ rest
noted request (too_many s) rest = rest

-- The requests that are admitted, of a sequence of addresses and times.
unfoldable pub admitted_of : RateLimiter → List (Text × ℕ) → Hits → List (Text × ℕ)
admitted_of limiter [] hits = []
admitted_of limiter ((ip, now) ∷ requests) hits =
    let (admission, hits') = admit limiter ip now hits in
    noted (ip, now) admission (admitted_of limiter requests hits')
