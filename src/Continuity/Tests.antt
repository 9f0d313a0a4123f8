-- ===== src/Continuity/Tests.antt =====
-- Profiles of src/primal_ai/continuity on small inputs: one fact that the user set, one that is
-- learned, and a merge.
use primal_core.Base.{
  ℕ, ◌≡◌, refl, String, true, some, [], ◌∷◌, returned, raised, exception, Outcome,
}
use primal_core.Base.Dict.{get}
use primal_core.Base.Int.{pos}
use primal_core.Base.Value.{str, end}
use primal_core.Base.Python.{Python, IsPython}
use primal_core.Storage.{memory_storage, memory_storage-IsLawful}
use primal_core.Continuity.Profile.{ProfileField, UserProfile, higher_confidence, get_field, merge}
use primal_core.Continuity.Merging.{combine, get_field-merge}
use primal_core.Continuity.Facade.{Memory, load, save, autolearn}
use primal_core.Continuity.Autolearn.{TextMethods, parse, byo_autolearn}
use primal_core.Continuity.RoundTrip.{load-save_profile}
use primal_core.Continuity.Learning.{learned, last_with, autolearn-learned}

abbrev fact : String → String → ℕ → ProfileField
fact k v confidence = record {
  key = k;
  value = str v;
  confidence = pos confidence;
  source = "user";
  updated_at = pos 5;
}

abbrev profile : UserProfile
profile = record {
  user_id = "k";
  fields = ("language", fact "language" "en" 1000000) ∷ ("city", fact "city" "Rome" 500000) ∷ [];
  metadata = end;
  created_at = pos 1;
  updated_at = pos 5;
}

abbrev other : UserProfile
other = record profile { fields = ("city", fact "city" "Oslo" 600000) ∷ [] }

get_field-merge_example :
    get_field "city" (merge higher_confidence (pos 9) profile other)
    ≡ combine higher_confidence (get_field "city" profile) (get_field "city" other)
unfolding get
get_field-merge_example = get_field-merge higher_confidence (pos 9) profile other "city" (refl, tt)

abbrev memory : Memory memory_storage
memory = record { store = some []; published = []; warned_no_store = true; warnings = 0 }

abbrev plain : Python
plain = record {
  str_of = λ v. elim v [ str s ↦ s | _ ↦ "other" ];
  parse_float = λ s. raised (exception "ValueError" s);
  dict_of = λ v. raised (exception "TypeError" "not a mapping");
  lower = λ s. s;
}

plain-IsPython : IsPython plain
plain-IsPython = record { str_of-str = λ s. refl }

load-save_profile_example :
    load plain (pos 9) "user" (save "user" profile memory)
    ≡ returned (record profile { user_id = "user" })
load-save_profile_example =
    load-save_profile plain plain-IsPython (pos 9) memory_storage memory_storage-IsLawful "user"
      profile memory [] refl ((refl, refl, refl), ((refl, refl, refl), tt))

-- Lines of the form `city:Oslo`, where the key has four letters
abbrev methods : TextMethods
methods = record {
  splitlines = λ s. s ∷ [];
  strip = λ s. s;
  has_colon = λ s. true;
  before_colon = λ s. "city";
  after_colon = λ s. s;
}

abbrev answer : String → Outcome String
answer prompt = returned "Oslo"

abbrev saved : Memory memory_storage
saved = save "user" profile memory

load-saved : load plain (pos 9) "user" saved ≡ returned (record profile { user_id = "user" })
load-saved =
    load-save_profile plain plain-IsPython (pos 9) memory_storage memory_storage-IsLawful "user"
      profile memory [] refl ((refl, refl, refl), ((refl, refl, refl), tt))

autolearn-learned_example :
    let learner =
      byo_autolearn methods plain (λ text p. text) answer "byo" "autolearn:byo" (pos 9) in
    (p : UserProfile) × ((autolearn plain (pos 9) "user" "text" learner saved).0 ≡ returned p)
    × ((k : String)
        → get_field k p
          ≡ learned
              (get_field k (record profile { user_id = "user" }))
              (last_with k (parse methods "autolearn:byo" (pos 9) "Oslo").0))
autolearn-learned_example =
    autolearn-learned methods plain (λ text p. text) answer "byo" "autolearn:byo" (pos 9) "user"
      "text" saved (record profile { user_id = "user" }) "Oslo" load-saved refl
