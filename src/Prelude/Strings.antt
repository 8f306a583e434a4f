-- ===== src/Prelude/Strings.antt =====
-- Python's str methods on lists of code points.
use Prim.Native.Nat.{ℕ, suc}
use mathlib.Core.Path.{◌≡◌, refl, sym, ap, ◌∙◌}
use mathlib.Core.Logic.{inl, inr}
use mathlib.Core.Bool.{Bool, true, false, ◌&&◌, ◌||◌}
use mathlib.Core.Option.{Option, none, some}
use mathlib.Core.List.{List, [], ◌∷◌, ◌++◌}
use native.Mathlib.Omega.{arith}
use callsense.Prelude.Tests.{◌==◌, leb, if◌then◌else◌, Bool-cases}
use callsense.Prelude.Lists.{All, drop, take, length, append_assoc}

-- The code points that str.isspace accepts.
unfoldable pub is_space : ℕ → Bool
is_space c =
    leb 9 c && leb c 13
    || leb 28 c && leb c 32
    || c == 133
    || c == 160
    || c == 5760
    || leb 8192 c && leb c 8202
    || c == 8232
    || c == 8233
    || c == 8239
    || c == 8287
    || c == 12288

-- lstrip with a test for the characters to drop, and rstrip with one.
unfoldable pub drop_while : (ℕ → Bool) → List ℕ → List ℕ
drop_while p [] = []
drop_while p (c ∷ s) = if p c then drop_while p s else c ∷ s

unfoldable pub drop_end : (ℕ → Bool) → List ℕ → List ℕ
drop_end p [] = []
drop_end p (c ∷ s) = elim (drop_end p s) [ [] ↦ if p c then [] else c ∷ [] | d ∷ t ↦ c ∷ d ∷ t ]

unfoldable pub strip : List ℕ → List ℕ
unfolding drop_while drop_end is_space
strip s = drop_end is_space (drop_while is_space s)

unfoldable pub starts_with : List ℕ → List ℕ → Bool
starts_with [] s = true
starts_with (c ∷ prefix) [] = false
starts_with (c ∷ prefix) (d ∷ s) = c == d && starts_with prefix s

unfoldable pub text_eq : List ℕ → List ℕ → Bool
text_eq [] [] = true
text_eq [] (d ∷ t) = false
text_eq (c ∷ s) [] = false
text_eq (c ∷ s) (d ∷ t) = c == d && text_eq s t

-- `part in s`
unfoldable pub contains : List ℕ → List ℕ → Bool
unfolding starts_with
contains part [] = starts_with part []
contains part (c ∷ s) = starts_with part (c ∷ s) || contains part s

-- What stands before the first occurrence of a separator: s.split(sep, 1)[0].
unfoldable pub before_first : List ℕ → List ℕ → List ℕ
unfolding starts_with
before_first sep [] = []
before_first sep (c ∷ s) =
    let rest = before_first sep s in if starts_with sep (c ∷ s) then [] else c ∷ rest

-- s.find(c) and s.rfind(c), none for -1.
unfoldable pub find : ℕ → List ℕ → Option ℕ
find c [] = none
find c (d ∷ s) = elim (find c s) [
  | none ↦ if d == c then some 0 else none
  | some i ↦ if d == c then some 0 else some (suc i)
]

unfoldable pub rfind : ℕ → List ℕ → Option ℕ
rfind c [] = none
rfind c (d ∷ s) = elim (rfind c s) [
  | none ↦ if d == c then some 0 else none
  | some i ↦ some (suc i)
]

-- s[start:stop]
unfoldable pub slice : ℕ → ℕ → List ℕ → List ℕ
slice start stop s = drop start (take stop s)

-- No character of a text is the given one.
abbrev pub Lacks : ℕ → List ℕ → Type 0
Lacks c s = All (λ d. (d == c) ≡ false) s

nonempty : (pre : List ℕ) (c : ℕ) (s : List ℕ) → (d : ℕ) × (t : List ℕ) × (pre ++ c ∷ s ≡ d ∷ t)
nonempty [] c s = (c, s, refl)
nonempty (d ∷ pre) c s = (d, pre ++ c ∷ s, refl)

module _ (p : ℕ → Bool) where
  drop_end-Lacks : (c : ℕ) (s : List ℕ) → Lacks c s → Lacks c (drop_end p s)
  unfolding drop_end
  drop_end-Lacks c [] h = tt
  drop_end-Lacks c (d ∷ s) h = go (drop_end p s) (drop_end-Lacks c s h.1)
    where
      go :
          (r : List ℕ)
          → Lacks c r
          → Lacks c
              (elim r as (λ _. List ℕ) [ [] ↦ if p d then [] else d ∷ [] | e ∷ t ↦ d ∷ e ∷ t ])
      go [] k = elim (Bool-cases (p d)) [ inl e ↦ rw e tt | inr e ↦ rw e (h.0, tt) ]
      go (e ∷ t) k = (h.0, k)

  -- A character before a text that is not all dropped stays.
  drop_end_cons :
      (d : ℕ) (s : List ℕ) (e : ℕ) (t : List ℕ)
      → drop_end p s ≡ e ∷ t
      → drop_end p (d ∷ s) ≡ d ∷ e ∷ t
  unfolding drop_end
  drop_end_cons d s e t h = rw h refl

module _ (p : ℕ → Bool) (c : ℕ) (kept : p c ≡ false) where
  -- What is dropped from the front ends before a character that is kept.
  pub drop_while-until :
      (pre s : List ℕ)
      → Lacks c pre
      → (pre' : List ℕ) × Lacks c pre' × (drop_while p (pre ++ c ∷ s) ≡ pre' ++ c ∷ s)
  unfolding drop_while
  drop_while-until [] s h = ([], tt, rw kept refl)
  drop_while-until (d ∷ pre) s h = elim (Bool-cases (p d)) [
    | inl e ↦ let (pre', lacks, same) = drop_while-until pre s h.1 in (pre', lacks, rw e same)
    | inr e ↦ (d ∷ pre, h, rw e refl)
  ]

  -- What is dropped from the end begins after a character that is kept.
  pub drop_end-until :
      (pre s : List ℕ)
      → (s' : List ℕ) × (Lacks c s → Lacks c s') × (drop_end p (pre ++ c ∷ s) ≡ pre ++ c ∷ s')
  unfolding drop_end
  drop_end-until [] s = go (drop_end p s) refl
    where
      go :
          (r : List ℕ)
          → drop_end p s ≡ r
          → (s' : List ℕ) × (Lacks c s → Lacks c s') × (drop_end p (c ∷ s) ≡ c ∷ s')
      go [] e = ([], λ _. tt, rw (e, kept) refl)
      go (d ∷ r) e = (d ∷ r, λ h. simp e at (drop_end-Lacks p c s h), rw e refl)
  drop_end-until (d ∷ pre) s =
      let (s', lacks, same) = drop_end-until pre s in
      let (e, t, q) = nonempty pre c s' in
      (s', lacks, drop_end_cons p d (pre ++ c ∷ s) e t (same ∙ q) ∙ ap (λ r. d ∷ r) (sym q))

module _ (c : ℕ) where
  pub find_first : (pre s : List ℕ) → Lacks c pre → find c (pre ++ c ∷ s) ≡ some (length pre)
  unfolding find
  find_first [] s h = ground arith
  find_first (d ∷ pre) s h = rw (find_first pre s h.1, h.0) refl

  rfind-Lacks : (s : List ℕ) → Lacks c s → rfind c s ≡ none
  unfolding rfind
  rfind-Lacks [] h = refl
  rfind-Lacks (d ∷ s) h = rw (rfind-Lacks s h.1, h.0) refl

  pub rfind_last : (pre s : List ℕ) → Lacks c s → rfind c (pre ++ c ∷ s) ≡ some (length pre)
  unfolding rfind
  rfind_last [] s h = rw (rfind-Lacks s h) (ground arith)
  rfind_last (d ∷ pre) s h = rw (rfind_last pre s h) refl

pub drop-append : (pre s : List ℕ) → drop (length pre) (pre ++ s) ≡ s
drop-append [] s = refl
drop-append (c ∷ pre) s = drop-append pre s

take-append :
    (pre : List ℕ) (d : ℕ) (s : List ℕ) → take (suc (length pre)) (pre ++ d ∷ s) ≡ pre ++ d ∷ []
take-append [] d s = refl
take-append (c ∷ pre) d s = ap (λ r. c ∷ r) (take-append pre d s)

-- The slice from the end of a first part to the end of the middle.
pub slice-append :
    (pre mid : List ℕ) (d : ℕ) (s : List ℕ)
    → slice (length pre) (suc (length (pre ++ mid))) ((pre ++ mid) ++ d ∷ s) ≡ mid ++ d ∷ []
unfolding slice
slice-append pre mid d s =
    ap (drop (length pre)) (take-append (pre ++ mid) d s ∙ append_assoc pre mid (d ∷ []))
    ∙ drop-append pre (mid ++ d ∷ [])

starts_with_self : (prefix s : List ℕ) → starts_with prefix (prefix ++ s) ≡ true
unfolding starts_with
starts_with_self [] s = refl
starts_with_self (c ∷ prefix) s = ground (arith, starts_with_self prefix s)

-- A text without the first character of a separator is what stands before it.
pub before_first-append :
    (c : ℕ) (sep body tail : List ℕ)
    → Lacks c body
    → before_first (c ∷ sep) (body ++ ((c ∷ sep) ++ tail)) ≡ body
unfolding before_first starts_with
before_first-append c sep [] tail h = rw (starts_with_self (c ∷ sep) tail) refl
before_first-append c sep (d ∷ body) tail h =
    let apart : (c == d) ≡ false = ground arith in
    rw (apart, before_first-append c sep body tail h.1) refl
