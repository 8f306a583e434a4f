-- ===== src/Analysis/Llm/Extract.antt =====
-- What `_extract_json` of backend/analysis/llm.py finds in an answer.
use callsense.Prelude.{
  ℕ, Bool, true, false, [], ◌∷◌, ◌++◌, ◌≡◌, refl, sym, ap, ◌∙◌, All, append_assoc, strip,
  drop_while, drop_end, is_space, starts_with, before_first, Lacks, drop_while-until,
  drop_end-until, find_first, rfind_last, slice-append, before_first-append,
}
use callsense.Models.Tables.{Text}
use callsense.Analysis.Llm.{fence, in_json, braced, unfenced, extract_json}

-- A JSON object as a text: what stands between its braces is any text.
abbrev pub object_text : Text → Text
object_text mid = b'{' ∷ (mid ++ b'}' ∷ [])

abbrev framed : Text → Text → Text → Text
framed pre mid post = pre ++ b'{' ∷ (mid ++ b'}' ∷ post)

framed-eq : (pre mid post : Text) → framed pre mid post ≡ (pre ++ b'{' ∷ mid) ++ b'}' ∷ post
framed-eq pre mid post = sym (append_assoc pre (b'{' ∷ mid) (b'}' ∷ post))

module _ (mid : Text) where
  braced-framed :
      (pre post : Text)
      → Lacks b'{' pre
      → Lacks b'}' post
      → braced (framed pre mid post) ≡ object_text mid
  unfolding braced
  braced-framed pre post h k =
      rw
        (
          find_first b'{' pre (mid ++ b'}' ∷ post) h,
          framed-eq pre mid post,
          rfind_last b'}' (pre ++ b'{' ∷ mid) post k,
          slice-append pre (b'{' ∷ mid) b'}' post,
        )
        refl

  -- Dropping from the front, where the brace is kept.
  front :
      (p : ℕ → Bool) (pre post : Text)
      → p b'{' ≡ false
      → Lacks b'{' pre
      → (pre' : Text) × Lacks b'{' pre'
        × (drop_while p (framed pre mid post) ≡ framed pre' mid post)
  front p pre post kept h = drop_while-until p b'{' kept pre (mid ++ b'}' ∷ post) h

  back :
      (p : ℕ → Bool) (pre post : Text)
      → p b'}' ≡ false
      → Lacks b'}' post
      → (post' : Text) × Lacks b'}' post'
        × (drop_end p (framed pre mid post) ≡ framed pre mid post')
  back p pre post kept h =
      let (post', lacks, same) = drop_end-until p b'}' kept (pre ++ b'{' ∷ mid) post in
      (
        post',
        lacks h,
        ap (drop_end p) (framed-eq pre mid post) ∙ same ∙ sym (framed-eq pre mid post'),
      )

  strip-framed :
      (pre post : Text)
      → Lacks b'{' pre
      → Lacks b'}' post
      → (pre' : Text) × (post' : Text) × Lacks b'{' pre'
        × Lacks b'}' post'
        × (strip (framed pre mid post) ≡ framed pre' mid post')
  unfolding strip is_space
  strip-framed pre post h k =
      let (pre', h', first) = front is_space pre post refl h in
      let (post', k', second) = back is_space pre' post refl k in
      (pre', post', h', k', ap (drop_end is_space) first ∙ second)

drop_while-All :
    (p : ℕ → Bool) (lead : Text) (c : ℕ) (s : Text)
    → All (λ d. p d ≡ true) lead
    → p c ≡ false
    → drop_while p (lead ++ c ∷ s) ≡ c ∷ s
unfolding drop_while
drop_while-All p [] c s h kept = rw kept refl
drop_while-All p (d ∷ lead) c s h kept = rw h.0 (drop_while-All p lead c s h.1 kept)

-- What a model may put around its object: words before and after it, or a fence, with white space
-- before the fence, words (such as the tag `json`) around the object in it, and any text after.
pub data Wrapping : Type 0 where
  prose : Text → Text → Wrapping
  fenced : Text → Text → Text → Text → Wrapping

abbrev pub wrap : Wrapping → Text → Text
wrap (prose pre post) mid = framed pre mid post
wrap (fenced lead pre post tail) mid =
    lead ++ b'`' ∷ b'`' ∷ b'`' ∷ (framed pre mid post ++ (fence ++ tail))

-- No opening brace comes before the object and no closing one after it; prose does not begin with
-- a fence, and there is no backquote in the fenced text.
abbrev pub IsWrapping : Wrapping → Text → Type 0
IsWrapping (prose pre post) mid =
    Lacks b'{' pre × Lacks b'}' post × (starts_with fence (strip (framed pre mid post)) ≡ false)
IsWrapping (fenced lead pre post tail) mid =
    Lacks b'{' pre
    × Lacks b'}' post
    × All (λ d. is_space d ≡ true) lead
    × Lacks b'`' (framed pre mid post)

-- The text between two fences.
strip-fenced :
    (lead body tail : Text)
    → All (λ d. is_space d ≡ true) lead
    → (tail' : Text) × (strip (lead ++ b'`' ∷ b'`' ∷ b'`' ∷ (body ++ (fence ++ tail)))
        ≡ fence ++ (body ++ (fence ++ tail')))
unfolding strip is_space
strip-fenced lead body tail h =
    let text = λ (t : Text). fence ++ (body ++ (fence ++ t)) in
    let kept = (fence ++ body) ++ b'`' ∷ b'`' ∷ [] in
    let shape = λ (t : Text). append_assoc (fence ++ body) (b'`' ∷ b'`' ∷ []) (b'`' ∷ t) in
    let (tail', _, same) = drop_end-until is_space b'`' refl kept tail in
    (
      tail',
      ap (drop_end is_space)
            (drop_while-All is_space lead b'`' (b'`' ∷ b'`' ∷ (body ++ (fence ++ tail))) h refl)
          ∙ ap (drop_end is_space) (sym (shape tail))
          ∙ same
          ∙ shape tail',
    )

unfenced-eq : (s : Text) → unfenced (fence ++ s) ≡ strip (drop_while in_json (before_first fence s))
unfolding unfenced starts_with
unfenced-eq s = refl

unfenced-fenced :
    (mid pre post tail : Text)
    → Lacks b'{' pre
    → Lacks b'}' post
    → Lacks b'`' (framed pre mid post)
    → braced (unfenced (fence ++ (framed pre mid post ++ (fence ++ tail)))) ≡ object_text mid
unfolding in_json
unfenced-fenced mid pre post tail h k plain =
    let inside = before_first-append b'`' (b'`' ∷ b'`' ∷ []) (framed pre mid post) tail plain in
    let (pre', h', dropped) = front mid in_json pre post refl h in
    let (pre2, post2, h2, k2, stripped) = strip-framed mid pre' post h' k in
    let text =
      unfenced-eq (framed pre mid post ++ (fence ++ tail))
      ∙ ap (λ t. strip (drop_while in_json t)) inside
      ∙ ap strip dropped
      ∙ stripped in
    ap braced text ∙ braced-framed mid pre2 post2 h2 k2

-- A JSON object that stands in a model's answer is found, in two ways of standing there. In both no
-- opening brace comes before it in its surroundings, within the fence if it is fenced, and no
-- closing one after it. Either the answer does not begin with a fence after white space; or it
-- does, with white space before the fence and any text after the closing one, and what is fenced,
-- the object included, has no backquote.
pub extract_json-wrap :
    (w : Wrapping) (mid : Text) → IsWrapping w mid → extract_json (wrap w mid) ≡ object_text mid
unfolding extract_json unfenced
extract_json-wrap (prose pre post) mid (h, k, plain) =
    let (pre', post', h', k', same) = strip-framed mid pre post h k in
    rw (plain, same) (braced-framed mid pre' post' h' k')
extract_json-wrap (fenced lead pre post tail) mid (h, k, white, plain) =
    let (tail', same) = strip-fenced lead (framed pre mid post) tail white in
    ap (λ t. braced (unfenced t)) same ∙ unfenced-fenced mid pre post tail' h k plain
