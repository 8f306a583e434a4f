-- ===== src/App/RateLimit/Window.antt =====
-- The limit holds in every window, wherever it begins.
use mathlib.Core.Path.{subst}
use callsense.Prelude.{
  ℕ, ◌+◌, ◌≤◌, ◌<◌, Bool, true, false, ◌&&◌, List, [], ◌∷◌, ◌++◌, ◌≡◌, refl, sym, ap, ◌∙◌, ◌⊎◌, inl,
  inr, arith, ltb, leb, if◌then◌else◌, length, length-append, count_where, Bool-cases, ==_refl,
  leb→le,
}
use callsense.Models.Tables.{Text}
use callsense.App.RateLimit.{
  RateLimiter, text_eq, Hits, get_hits, set_hits, expire, admit, admitted_of, Admission, admitted,
  too_many, noted, retry_after,
}

text_eq_refl : (s : Text) → text_eq s s ≡ true
text_eq_refl [] = refl
text_eq_refl (c ∷ s) = rw (==_refl c, text_eq_refl s)

text_eq_sound : (s t : Text) → text_eq s t ≡ true → s ≡ t
text_eq_sound [] [] h = refl
text_eq_sound [] (d ∷ t) h = absurd (cc)
text_eq_sound (c ∷ s) [] h = absurd (cc)
text_eq_sound (c ∷ s) (d ∷ t) h =
    let head : c ≡ d = ground arith in let tail : s ≡ t = text_eq_sound s t (ground arith) in cc

get-set_same : (ip : Text) (hits : List ℕ) (all : Hits) → get_hits ip (set_hits ip hits all) ≡ hits
unfolding get_hits set_hits
get-set_same ip hits [] = rw (text_eq_refl ip)
get-set_same ip hits ((k, old) ∷ rest) = ground (arith, get-set_same ip hits rest)

get-set_other :
    (who ip : Text) (hits : List ℕ) (all : Hits)
    → text_eq ip who ≡ false
    → get_hits who (set_hits ip hits all) ≡ get_hits who all
unfolding get_hits set_hits
get-set_other who ip hits [] ne = rw ne
get-set_other who ip hits ((k, old) ∷ rest) ne = elim (Bool-cases (text_eq k ip)) [
  | inl e ↦
      let same : k ≡ ip = text_eq_sound k ip e in
      let apart : text_eq k who ≡ false = ap (λ x. text_eq x who) same ∙ ne in rw e (rw apart refl)
  | inr e ↦ rw e (ground (arith, get-set_other who ip hits rest ne))
]

length-expire : (w now : ℕ) (hits : List ℕ) → length (expire w now hits) ≤ length hits
unfolding expire
length-expire w now [] = omega arith
length-expire w now (h ∷ hits) = ground (arith, length-expire w now hits)

-- What has expired lies before each window that is still open.
count_where-expire :
    (w now t : ℕ) (hits : List ℕ)
    → now ≤ t + w
    → count_where (leb t) (expire w now hits) ≡ count_where (leb t) hits
unfolding expire count_where
count_where-expire w now t [] h = refl
count_where-expire w now t (x ∷ hits) h = elim (Bool-cases (ltb (x + w) now)) [
  | inl e ↦
      let before : leb t x ≡ false = ground arith in
      rw e (rw before (omega (arith, count_where-expire w now t hits h)))
  | inr e ↦ rw e refl
]

count_where-snoc :
    {A : Type 0} (p : A → Bool) (xs : List A) (x : A)
    → count_where p (xs ++ x ∷ []) ≡ count_where p xs + (if p x then 1 else 0)
unfolding count_where
count_where-snoc p [] x = omega arith
count_where-snoc p (y ∷ xs) x = omega (arith, count_where-snoc p xs x)

count_where_le : {A : Type 0} (p : A → Bool) (xs : List A) → count_where p xs ≤ length xs
unfolding count_where
count_where_le p [] = omega arith
count_where_le p (x ∷ xs) = ground (arith, count_where_le p xs)

-- Times that do not go back.
abbrev pub Ascending : ℕ → List (Text × ℕ) → Type 0
Ascending since [] = Unit
Ascending since ((_, now) ∷ requests) = (since ≤ now) × Ascending now requests

abbrev pub in_window : Text → ℕ → ℕ → Text × ℕ → Bool
in_window who from w (ip, time) = text_eq ip who && (leb from time && leb time (from + w))

-- No request of later times is in the window.
none_later :
    (limiter : RateLimiter) (who : Text) (from since : ℕ) (requests : List (Text × ℕ)) (hits : Hits)
    → Ascending since requests
    → from + limiter.window < since
    → count_where (in_window who from limiter.window) (admitted_of limiter requests hits) ≡ 0
unfolding admitted_of count_where
none_later limiter who from since [] hits asc late = refl
none_later limiter who from since ((ip, now) ∷ requests) hits asc late =
    let (admission, hits') = admit limiter ip now hits in
    let rest = none_later limiter who from now requests hits' asc.1 (omega (arith, asc.0)) in
    go admission hits' rest
  where
    go :
        (admission : Admission) (hits' : Hits)
        → count_where (in_window who from limiter.window) (admitted_of limiter requests hits') ≡ 0
        → count_where
            (in_window who from limiter.window)
            (noted (ip, now) admission (admitted_of limiter requests hits'))
          ≡ 0
    go admitted hits' h =
        let out : in_window who from limiter.window (ip, now) ≡ false = ground (arith, asc.0) in
        rw out (omega (arith, h))
    go (too_many s) hits' h = h

get-set_own :
    (who ip : Text) (hits : List ℕ) (all : Hits)
    → text_eq ip who ≡ true
    → get_hits who (set_hits ip hits all) ≡ hits
get-set_own who ip hits all e =
    subst (λ x. get_hits x (set_hits ip hits all) ≡ hits) (text_eq_sound ip who e)
      (get-set_same ip hits all)

-- The two outcomes of a request, in terms of the hits that have not expired.
admit_cases :
    (limiter : RateLimiter) (ip : Text) (now : ℕ) (hits : Hits)
    → let recent = expire limiter.window now (get_hits ip hits) in
      ((s : ℕ) × (admit limiter ip now hits ≡ (too_many s, set_hits ip recent hits)))
      ⊎ ((length recent < limiter.max_requests)
          × (admit limiter ip now hits ≡ (admitted, set_hits ip (recent ++ now ∷ []) hits)))
unfolding admit
admit_cases limiter ip now hits =
    let recent = expire limiter.window now (get_hits ip hits) in
    elim (Bool-cases (leb limiter.max_requests (length recent))) [
      | inl e ↦ inl (retry_after limiter now recent, rw e refl)
      | inr e ↦ inr (ground arith, rw e refl)
    ]

-- What is admitted later in a window, and what is recorded of it, stay within the limit together.
IsWithin : RateLimiter → Text → ℕ → List (Text × ℕ) → Hits → Type 0
IsWithin limiter who from requests hits =
    count_where (in_window who from limiter.window) (admitted_of limiter requests hits)
      + count_where (leb from) (get_hits who hits)
    ≤ limiter.max_requests

module _ (limiter : RateLimiter) (who ip : Text) (from now : ℕ) (requests : List (Text × ℕ))
    (hits : Hits)
    (ih : (hits' : Hits)
      → length (get_hits who hits') ≤ limiter.max_requests
      → IsWithin limiter who from requests hits')
    (few : length (get_hits who hits) ≤ limiter.max_requests)
    (inside : now ≤ from + limiter.window) where
  next : Admission × Hits → List (Text × ℕ)
  next outcome = noted (ip, now) outcome.0 (admitted_of limiter requests outcome.1)

  -- The bound on what follows from this request, for a known outcome of it.
  after_outcome :
      (outcome : Admission × Hits)
      → admit limiter ip now hits ≡ outcome
      → count_where (in_window who from limiter.window) (next outcome)
          + count_where (leb from) (get_hits who hits)
        ≤ limiter.max_requests
      → IsWithin limiter who from ((ip, now) ∷ requests) hits
  unfolding IsWithin admitted_of next
  after_outcome outcome e h =
      subst
        (λ x.
          count_where (in_window who from limiter.window) (next x)
            + count_where (leb from) (get_hits who hits)
          ≤ limiter.max_requests)
        (sym e) h

  step_other : text_eq ip who ≡ false → IsWithin limiter who from ((ip, now) ∷ requests) hits
  unfolding IsWithin next count_where
  step_other ne =
      let count : List ℕ → ℕ = count_where (leb from) in
      let weight : Bool → ℕ = λ b. if b then 1 else 0 in
      let recent = expire limiter.window now (get_hits ip hits) in
      let out : in_window who from limiter.window (ip, now) ≡ false = rw ne refl in
      elim (admit_cases limiter ip now hits) [
        | inl (s, e) ↦
            let same = get-set_other who ip recent hits ne in
            let rest = ih (set_hits ip recent hits) (rw same few) in
            after_outcome (too_many s, set_hits ip recent hits) e
              (omega (arith, rest, ap count same))
        | inr (_, e) ↦
            let same = get-set_other who ip (recent ++ now ∷ []) hits ne in
            let rest = ih (set_hits ip (recent ++ now ∷ []) hits) (rw same few) in
            after_outcome (admitted, set_hits ip (recent ++ now ∷ []) hits) e
              (omega (arith, rest, ap count same, ap weight out))
      ]

  step_own : text_eq ip who ≡ true → IsWithin limiter who from ((ip, now) ∷ requests) hits
  unfolding IsWithin next count_where
  step_own mine =
      let recent = expire limiter.window now (get_hits ip hits) in
      let count : List ℕ → ℕ = count_where (leb from) in
      let weight : Bool → ℕ = λ b. if b then 1 else 0 in
      let hit : in_window who from limiter.window (ip, now) ≡ leb from now = ground arith in
      let own : get_hits ip hits ≡ get_hits who hits =
        ap (λ x. get_hits x hits) (text_eq_sound ip who mine) in
      let kept = count_where-expire limiter.window now from (get_hits ip hits) inside in
      let shorter = length-expire limiter.window now (get_hits ip hits) in
      elim (admit_cases limiter ip now hits) [
        | inl (s, e) ↦
            let same = get-set_own who ip recent hits mine in
            let rest =
              ih (set_hits ip recent hits)
                (rw (same) (omega (arith, shorter, few, ap length own))) in
            after_outcome (too_many s, set_hits ip recent hits) e
              (omega (arith, rest, ap count same, kept, ap count own))
        | inr (room, e) ↦
            let same = get-set_own who ip (recent ++ now ∷ []) hits mine in
            let size = length-append recent (now ∷ []) in
            let snoc = count_where-snoc (leb from) recent now in
            let rest =
              ih (set_hits ip (recent ++ now ∷ []) hits) (rw (same) (omega (arith, size, room))) in
            after_outcome (admitted, set_hits ip (recent ++ now ∷ []) hits) e
              (omega (arith, rest, ap count same, kept, ap count own, snoc, ap weight hit))
      ]

within :
    (limiter : RateLimiter) (who : Text) (from since : ℕ) (requests : List (Text × ℕ)) (hits : Hits)
    → Ascending since requests
    → length (get_hits who hits) ≤ limiter.max_requests
    → IsWithin limiter who from requests hits
unfolding IsWithin admitted_of count_where
within limiter who from since [] hits asc few =
    omega (arith, few, count_where_le (leb from) (get_hits who hits))
within limiter who from since ((ip, now) ∷ requests) hits asc few =
    let ih : (hits' : Hits)
        → length (get_hits who hits') ≤ limiter.max_requests
        → IsWithin limiter who from requests hits' =
      λ hits' few'. within limiter who from now requests hits' asc.1 few' in
    elim (Bool-cases (leb now (from + limiter.window))) [
      | inl e ↦ elim (Bool-cases (text_eq ip who)) [
        | inl mine ↦
            step_own limiter who ip from now requests hits ih few
              (leb→le now (from + limiter.window) e) mine
        | inr other ↦
            step_other limiter who ip from now requests hits ih few
              (leb→le now (from + limiter.window) e) other
      ]
      | inr e ↦
          let later : from + limiter.window < now = ground arith in
          omega (
            arith,
            few,
            count_where_le (leb from) (get_hits who hits),
            none_later limiter who from now ((ip, now) ∷ requests) hits (omega arith, asc.1) later,
          )
    ]

-- If the clock does not go back, then in every window of the limiter's length, wherever it begins, no
-- address has more than `max_requests` requests admitted, of any sequence of requests from the start.
pub admit_bounded :
    (limiter : RateLimiter) (who : Text) (from since : ℕ) (requests : List (Text × ℕ))
    → Ascending since requests
    → count_where (in_window who from limiter.window) (admitted_of limiter requests [])
      ≤ limiter.max_requests
unfolding get_hits IsWithin count_where
admit_bounded limiter who from since requests asc =
    omega (arith, within limiter who from since requests [] asc (omega arith))
