-- ===== src/Analysis/Llm/Choice.antt =====
-- `get_llm` of backend/analysis/llm.py: which client the settings choose.
use callsense.Prelude.{
  Bool, true, false, ◌≡◌, refl, ◌⊎◌, inl, inr, String, Option, none, some, [], ◌∷◌, if◌then◌else◌,
  codes, text_eq, Bool-cases,
}
use callsense.Models.Tables.{Text}
use callsense.Analysis.Llm.{or_empty}

-- The settings that choose the client.
pub record LlmSettings : Type 0 where
  pub mock_mode : Bool
  pub llm_provider : Option Text
  pub gemini_api_key : Option Text
  pub anthropic_api_key : Option Text

pub data Client : Type 0 where
  mock : Option String → Client
  gemini anthropic : Text → Client

-- The key, if there is one and it is not empty.
abbrev pub key_of : Option Text → Option Text
key_of none = none
key_of (some []) = none
key_of (some (c ∷ key)) = some (c ∷ key)

abbrev first_key : Option String → Option Text → Option Text → Client
first_key fixture (some g) a = gemini g
first_key fixture none (some a) = anthropic a
first_key fixture none none = mock fixture

-- `provider == "gemini" and key`, `provider == "anthropic" and key`, then whatever key is present.
abbrev with_provider : Bool → Bool → Option String → Option Text → Option Text → Client
with_provider true by_anthropic fixture (some g) a = gemini g
with_provider is_gemini true fixture g (some a) = anthropic a
with_provider is_gemini by_anthropic fixture g a = first_key fixture g a

unfoldable pub get_llm : (Text → Text) → LlmSettings → Option String → Client
get_llm lower s fixture =
    let provider = lower (or_empty s.llm_provider) in
    if s.mock_mode
    then mock fixture
    else with_provider (text_eq provider (codes "gemini")) (text_eq provider (codes "anthropic"))
        fixture (key_of s.gemini_api_key) (key_of s.anthropic_api_key)

-- A client that the keys and the named provider allow: the canned answers without any key; else
-- one with its own key, of the named provider if that one has a key.
abbrev pub IsAllowed : Bool → Bool → Option Text → Option Text → Option String → Client → Type 0
IsAllowed is_gemini is_anthropic gemini_key anthropic_key fixture client =
    ((client ≡ mock fixture) × (gemini_key ≡ none) × (anthropic_key ≡ none))
    ⊎ ((key : Text) × (client ≡ gemini key)
        × (gemini_key ≡ some key)
        × ((anthropic_key ≡ none) ⊎ (is_anthropic ≡ false) ⊎ (is_gemini ≡ true)))
    ⊎ ((key : Text) × (client ≡ anthropic key)
        × (anthropic_key ≡ some key)
        × ((gemini_key ≡ none) ⊎ (is_anthropic ≡ true)))

with_provider-IsAllowed :
    (by_gemini by_anthropic : Bool) (fixture : Option String) (g a : Option Text)
    → IsAllowed by_gemini by_anthropic g a fixture
        (with_provider by_gemini by_anthropic fixture g a)
with_provider-IsAllowed true b f (some g) a = inr (inl (g, refl, refl, inr (inr refl)))
with_provider-IsAllowed true true f none (some a) = inr (inr (a, refl, refl, inr refl))
with_provider-IsAllowed true false f none (some a) = inr (inr (a, refl, refl, inl refl))
with_provider-IsAllowed true true f none none = inl (refl, refl, refl)
with_provider-IsAllowed true false f none none = inl (refl, refl, refl)
with_provider-IsAllowed false true f (some g) (some a) = inr (inr (a, refl, refl, inr refl))
with_provider-IsAllowed false true f none (some a) = inr (inr (a, refl, refl, inr refl))
with_provider-IsAllowed false true f (some g) none = inr (inl (g, refl, refl, inl refl))
with_provider-IsAllowed false true f none none = inl (refl, refl, refl)
with_provider-IsAllowed false false f (some g) a = inr (inl (g, refl, refl, inr (inl refl)))
with_provider-IsAllowed false false f none (some a) = inr (inr (a, refl, refl, inl refl))
with_provider-IsAllowed false false f none none = inl (refl, refl, refl)

-- `MOCK_MODE` always chooses the canned answers. Without it the canned answers are chosen only
-- where both keys are missing or empty; else the client has its own key, and Gemini is passed over
-- for Anthropic, or chosen over it, where both have keys, only as `LLM_PROVIDER` says, with Gemini
-- where it names neither.
pub get_llm_lem :
    (lower : Text → Text) (s : LlmSettings) (fixture : Option String)
    → let provider = lower (or_empty s.llm_provider) in
      ((s.mock_mode ≡ true) × (get_llm lower s fixture ≡ mock fixture))
      ⊎ ((s.mock_mode ≡ false)
          × IsAllowed
              (text_eq provider (codes "gemini"))
              (text_eq provider (codes "anthropic"))
              (key_of s.gemini_api_key)
              (key_of s.anthropic_api_key)
              fixture
              (get_llm lower s fixture))
unfolding get_llm
get_llm_lem lower s fixture =
    let provider = lower (or_empty s.llm_provider) in
    elim (Bool-cases s.mock_mode) [
      | inl e ↦ inl (e, rw e refl)
      | inr e ↦ inr (
        e,
        rw e (
            with_provider-IsAllowed (text_eq provider (codes "gemini"))
              (text_eq provider (codes "anthropic")) fixture (key_of s.gemini_api_key)
              (key_of s.anthropic_api_key)),
      )
    ]
