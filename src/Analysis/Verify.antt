-- ===== src/Analysis/Verify.antt =====
-- backend/analysis/verify.py: the quote gate. The character tables are a parameter.
pub mod Windows
pub mod Gate
use callsense.Prelude.{
  ℕ, zero, suc, ◌+◌, ◌-◌, Bool, true, false, not, ◌&&◌, ◌||◌, Option, none, some, List, [], ◌∷◌,
  ◌++◌, ◌==◌, ltb, leb, if◌then◌else◌, length, take, drop,
}
use callsense.Double.{Double, decimal, round_places}
use callsense.Models.Tables.{Text}
use callsense.Transcription.Base.{TxSegment}
use callsense.Analysis.Difflib.{ratio}

-- str.lower, \\w and \\s (str.isspace) over code points.
pub record Unicode : Type 0 where
  pub lower : Text → Text
  pub is_word : ℕ → Bool
  pub is_space : ℕ → Bool

abbrev pub space : ℕ
space = 32

-- re.sub(r"[…]+", " ", s): each longest run of the characters is one space. `inside` says that the
-- run has begun.
unfoldable pub squeeze : (ℕ → Bool) → Bool → Text → Text
squeeze p inside [] = []
squeeze p inside (c ∷ s) =
    let rest = squeeze p (p c) s in
    if p c then (if inside then rest else space ∷ rest) else c ∷ rest

unfoldable pub drop_space : (ℕ → Bool) → Text → Text
drop_space is_space [] = []
drop_space is_space (c ∷ s) = let rest = drop_space is_space s in if is_space c then rest else c ∷ s

-- str.split(): the words between runs of white space; `word` is the word begun so far.
unfoldable pub split_from : (ℕ → Bool) → Text → Text → List Text
split_from is_space [] [] = []
split_from is_space (c ∷ word) [] = (c ∷ word) ∷ []
split_from is_space [] (d ∷ s) = split_from is_space (if is_space d then [] else d ∷ []) s
split_from is_space (c ∷ word) (d ∷ s) =
    let rest = split_from is_space (if is_space d then [] else c ∷ word ++ d ∷ []) s in
    if is_space d then (c ∷ word) ∷ rest else rest

-- " ".join(words)
unfoldable pub join : List Text → Text
join [] = []
join (w ∷ []) = w
join (w ∷ v ∷ words) = w ++ space ∷ join (v ∷ words)

pub record QuoteMatch : Type 0 where
  pub found : Bool
  pub ratio : ℕ
  pub segment_idx : Option ℕ
  pub start_s : Option Double
  pub end_s : Option Double

-- The best ratio so far, and its segment.
abbrev pub Best : Type 0
Best = Double × Option TxSegment

unfoldable pub default_threshold : Double
default_threshold = decimal 85 2

module _ (u : Unicode) where
  -- The trailing part of strip().
  unfoldable pub strip_end : Text → Text
  strip_end [] = []
  strip_end (c ∷ s) = elim (strip_end s) [
    | [] ↦ if u.is_space c then [] else c ∷ []
    | d ∷ t ↦ c ∷ d ∷ t
  ]

  unfoldable pub normalise : Text → Text
  unfolding squeeze drop_space strip_end
  normalise s = strip_end (
      drop_space u.is_space (
        squeeze u.is_space false
          (squeeze (λ c. not (u.is_word c || u.is_space c)) false (u.lower s))))

  unfoldable pub split : Text → List Text
  unfolding split_from
  split s = split_from u.is_space [] s

  -- `if r > best_ratio`
  unfoldable pub improve : Text → TxSegment → Text → Best → Best
  improve q seg candidate best =
      let r = ratio q candidate in if ltb best.0 r then (r, some seg) else best

  -- Every window of as many words as the quote has.
  unfoldable pub slide : Text → ℕ → TxSegment → ℕ → List Text → Best → Best
  unfolding improve join
  slide q window seg zero swords best = best
  slide q window seg (suc left) swords best =
      slide q window seg left (drop 1 swords) (improve q seg (join (take window swords)) best)

  unfoldable pub visit_words : Text → List Text → TxSegment → List Text → Best → Best
  unfolding slide
  visit_words q qwords seg [] best = best
  visit_words q qwords seg (w ∷ words) best =
      let swords = w ∷ words in
      if leb (length swords) (length qwords)
      then improve q seg (join swords) best
      else slide q (length qwords) seg (length swords - length qwords + 1) swords best

  unfoldable pub best_segment : Text → List Text → List TxSegment → Best → Best
  unfolding visit_words split normalise
  best_segment q qwords [] best = best
  best_segment q qwords (seg ∷ segments) best =
      best_segment q qwords segments (visit_words q qwords seg (split (normalise seg.text)) best)

  abbrev pub no_match : QuoteMatch
  no_match = record { found = false; ratio = 0; segment_idx = none; start_s = none; end_s = none }

  abbrev pub match_of : Double → Best → QuoteMatch
  match_of threshold (best_ratio, none) = record {
    found = leb threshold best_ratio;
    ratio = round_places 3 best_ratio;
    segment_idx = none;
    start_s = none;
    end_s = none;
  }
  match_of threshold (best_ratio, some seg) = record {
    found = leb threshold best_ratio;
    ratio = round_places 3 best_ratio;
    segment_idx = some seg.idx;
    start_s = some seg.start_s;
    end_s = some seg.end_s;
  }

  abbrev pub verify_words : Text → List Text → List TxSegment → Double → QuoteMatch
  verify_words q [] segments threshold = no_match
  verify_words q (w ∷ words) segments threshold =
      match_of threshold (best_segment q (w ∷ words) segments (0, none))

  unfoldable pub verify_quote : Text → List TxSegment → Double → QuoteMatch
  unfolding normalise split
  verify_quote quote segments threshold =
      let q = normalise quote in verify_words q (split q) segments threshold
