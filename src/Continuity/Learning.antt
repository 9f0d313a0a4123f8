-- ===== src/Continuity/Learning.antt =====
-- What a run of `autolearn` (src/primal_ai/continuity/_core.py) with `BYOAutolearn` makes of a
-- profile.
use primal_core.Base.{
  ◌≡◌, refl, ap, ◌∙◌, String, Bool, true, false, Option, none, some, List, [], ◌∷◌, All, Outcome,
  returned, str_eq, if◌then◌else◌, arith,
}
use primal_core.Base.Dict.{Dict, get, put, get-put, NodupKeys, put-NodupKeys}
use primal_core.Base.Int.{ℤ, ltb_ℤ}
use primal_core.Base.Python.{Python}
use primal_core.Storage.{Storage}
use primal_core.Guardian.Policy.{and_then}
use primal_core.Continuity.Profile.{ProfileField, UserProfile, higher_confidence, get_field, merge}
use primal_core.Continuity.Merging.{combine, get-merge_fields}
use primal_core.Continuity.Facade.{Memory, by_key, merge_extracted_into, load, autolearn}
use primal_core.Continuity.Autolearn.{
  TextMethods, default_autolearn_confidence, parse_lines, parse, profile_summary, extract,
  byo_autolearn,
}

abbrev pub later : Option ProfileField → Option ProfileField → Option ProfileField
later none old = old
later (some f) old = some f

-- The last of the learned fields that has a key
abbrev pub last_with : String → List ProfileField → Option ProfileField
last_with k [] = none
last_with k (f ∷ fs) = later (last_with k fs) (if str_eq f.key k then some f else none)

get-by_key :
    (k : String) (fs : List ProfileField) (d : Dict ProfileField)
    → get k (by_key fs d) ≡ later (last_with k fs) (get k d)
unfolding by_key
get-by_key k [] d = refl
get-by_key k (f ∷ fs) d = ground (arith, get-by_key k fs (put f.key f d), get-put f.key k f d)

by_key-NodupKeys :
    (fs : List ProfileField) (d : Dict ProfileField) → NodupKeys d → NodupKeys (by_key fs d)
unfolding by_key
by_key-NodupKeys [] d u = u
by_key-NodupKeys (f ∷ fs) d u = by_key-NodupKeys fs (put f.key f d) (put-NodupKeys f.key f d u)

later-none : (x : Option ProfileField) → later x none ≡ x
later-none none = refl
later-none (some f) = refl

get_field-merge_extracted_into :
    (now : ℤ) (current : UserProfile) (extracted : List ProfileField) (k : String)
    → get_field k (merge_extracted_into now current extracted)
      ≡ combine higher_confidence (get_field k current) (last_with k extracted)
unfolding merge_extracted_into get_field get merge
get_field-merge_extracted_into now current extracted k =
    get-merge_fields higher_confidence k (by_key extracted []) current.fields
      (by_key-NodupKeys extracted [] tt)
    ∙ ap (combine higher_confidence (get k current.fields))
        (get-by_key k extracted [] ∙ later-none (last_with k extracted))

-- What becomes of a field when a fact is learned: it stays if its confidence is 0.7 or more.
abbrev pub learned : Option ProfileField → Option ProfileField → Option ProfileField
learned none fact = fact
learned (some f) none = some f
learned (some f) (some fact) =
    if ltb_ℤ f.confidence default_autolearn_confidence then some fact else some f

abbrev IsDefault : ProfileField → Type 0
IsDefault f = f.confidence ≡ default_autolearn_confidence

parse_lines-IsDefault :
    (x : TextMethods) (source : String) (now : ℤ) (lines : List String)
    → All IsDefault (parse_lines x source now lines).0
unfolding parse_lines
parse_lines-IsDefault x source now [] = tt
parse_lines-IsDefault x source now (raw ∷ lines) =
    ground (arith, parse_lines-IsDefault x source now lines)

abbrev HasDefault : Option ProfileField → Type 0
HasDefault none = Unit
HasDefault (some f) = IsDefault f

later-HasDefault :
    (x y : Option ProfileField) → HasDefault x → HasDefault y → HasDefault (later x y)
later-HasDefault none y h k = k
later-HasDefault (some f) y h k = h

choice-HasDefault :
    (c : Bool) (f : ProfileField) → IsDefault f → HasDefault (if c then some f else none)
choice-HasDefault true f h = h
choice-HasDefault false f h = tt

last_with-HasDefault :
    (k : String) (fs : List ProfileField) → All IsDefault fs → HasDefault (last_with k fs)
last_with-HasDefault k [] h = tt
last_with-HasDefault k (f ∷ fs) (h, hs) =
    later-HasDefault (last_with k fs) (if str_eq f.key k then some f else none)
      (last_with-HasDefault k fs hs) (choice-HasDefault (str_eq f.key k) f h)

combine-learned :
    (old fact : Option ProfileField)
    → HasDefault fact
    → combine higher_confidence old fact ≡ learned old fact
combine-learned none fact h = refl
combine-learned (some f) none h = refl
combine-learned (some f) (some g) h = ground arith

-- When the user's model answers, `autolearn` returns a profile in which each field is the old one or
-- the last fact that the answer has for its key: an old field with a confidence of 0.7 or more, such
-- as one that the user has set, always stays; any other gives way to the fact, if there is one.
pub autolearn-learned :
    {T : Storage} (x : TextMethods) (py : Python) (format : String → String → String)
    (call_llm : String → Outcome String) (name source : String) (now : ℤ) (user_id text : String)
    (m : Memory T) (current : UserProfile) (response : String)
    → load py now user_id m ≡ returned current
    → call_llm (format text (profile_summary py current)) ≡ returned response
    → let learner = byo_autolearn x py format call_llm name source now in
      (p : UserProfile) × ((autolearn py now user_id text learner m).0 ≡ returned p)
      × ((k : String)
          → get_field k p
            ≡ learned (get_field k current) (last_with k (parse x source now response).0))
unfolding autolearn extract
autolearn-learned x py format call_llm name source now user_id text m current response h k = (
  merge_extracted_into now current (parse x source now response).0,
  rw (h, and_then, k) refl,
  λ j.
      get_field-merge_extracted_into now current (parse x source now response).0 j
      ∙ combine-learned (get_field j current) (last_with j (parse x source now response).0) (
          last_with-HasDefault j (parse x source now response).0
            (parse_lines-IsDefault x source now (x.splitlines response))),
)
