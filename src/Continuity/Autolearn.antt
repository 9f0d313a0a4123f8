-- ===== src/Continuity/Autolearn.antt =====
-- src/primal_ai/continuity/autolearn.py: `BYOAutolearn` and the registry of factories. The methods
-- of `str` that the parser calls, and the format of the prompt, are parameters.
use primal_core.Base.{
  ℕ, ◌+◌, String, ◌<>◌, Bool, List, [], ◌∷◌, map, Outcome, returned, ◌>>=◌, str_eq, if◌then◌else◌,
  not,
}
use primal_core.Base.Dict.{Dict, put}
use primal_core.Base.Int.{ℤ, pos}
use primal_core.Base.Value.{null, str}
use primal_core.Base.Python.{Python}
use primal_core.Continuity.Profile.{ProfileField, UserProfile, profile_keys, value_of}
use primal_core.Continuity.Facade.{Autolearn}

pub record TextMethods : Type 0 where
  pub splitlines : String → List String
  pub strip : String → String
  pub has_colon : String → Bool
  pub before_colon : String → String
  pub after_colon : String → String

abbrev pub default_autolearn_confidence : ℤ
default_autolearn_confidence = pos 700000

module _ (x : TextMethods) where
  -- The fields of the lines from here on, and how many lines are skipped
  unfoldable pub parse_lines : String → ℤ → List String → List ProfileField × ℕ
  parse_lines source now [] = ([], 0)
  parse_lines source now (raw ∷ lines) =
      let (out, skipped) = parse_lines source now lines in
      let line = x.strip raw in
      let key = x.strip (x.before_colon line) in
      if str_eq line ""
      then (out, skipped)
      else if not (x.has_colon line)
      then (out, skipped + 1)
      else if str_eq key ""
      then (out, skipped + 1)
      else (
        record {
          key = key;
          value = str (x.strip (x.after_colon line));
          confidence = default_autolearn_confidence;
          source = source;
          updated_at = now;
        }
            ∷ out,
        skipped,
      )

  unfoldable pub parse : String → ℤ → String → List ProfileField × ℕ
  unfolding parse_lines
  parse source now response = parse_lines source now (x.splitlines response)

-- `", ".join(texts)`
abbrev pub join_commas : List String → String
join_commas [] = ""
join_commas (s ∷ []) = s
join_commas (s ∷ t ∷ texts) = s <> (", " <> join_commas (t ∷ texts))

-- The summary of the profile that the prompt shows
unfoldable pub profile_summary : Python → UserProfile → String
unfolding profile_keys value_of
profile_summary py p =
    let text =
      join_commas (map (λ k. k <> ("=" <> py.str_of (value_of k null p))) (profile_keys p)) in
    if str_eq text "" then "(empty)" else text

-- `format` fills the template; the prompt goes to the user's model.
unfoldable pub extract :
    TextMethods
    → Python
    → (String → String → String)
    → (String → Outcome String)
    → String
    → ℤ
    → String
    → UserProfile
    → Outcome (List ProfileField)
unfolding parse profile_summary
extract x py format call_llm source_label now text p =
    call_llm (format text (profile_summary py p)) >>= λ response.
    returned (parse x source_label now response).0

abbrev pub byo_autolearn :
    TextMethods
    → Python
    → (String → String → String)
    → (String → Outcome String)
    → String
    → String
    → ℤ
    → Autolearn
unfolding extract
byo_autolearn x py format call_llm name source_label now = record {
  name = name;
  extract = extract x py format call_llm source_label now;
}

-- `register_autolearn` on `_AUTOLEARN_REGISTRY`
unfoldable pub register_autolearn :
    String → Outcome Autolearn → Dict (Outcome Autolearn) → Dict (Outcome Autolearn)
unfolding put
register_autolearn name factory registry = put name factory registry
