-- ===== src/Atlas/Bandits/Persistence/Tests.antt =====
-- Saving and loading the arms of src/primal_ai/atlas/bandit.py on small payloads.
use primal_core.Base.{
  ℕ, ◌≡◌, refl, String, true, List, [], ◌∷◌, Outcome, returned, raised, exception,
}
use primal_core.Base.Int.{ℤ, pos}
use primal_core.Base.Python.{Python, IsPython}
use primal_core.Base.Value.{Value, int, str, dict, field, end}
use primal_core.Storage.{memory_storage, memory_storage-IsLawful}
use primal_core.Atlas.Provider.{BanditOutcome}
use primal_core.Atlas.Bandits.{Arms, ucb1_update}
use primal_core.Atlas.Bandits.Updates.{learn}
use primal_core.Atlas.Bandits.Persistence.{save, load, load_value}
use primal_core.Atlas.Bandits.Persistence.RoundTrip.{load-save_arms, learn-NodupKeys}

abbrev text_of : Value → String
text_of (str s) = s
text_of _ = "?"

abbrev plain : Python
plain = record {
  str_of = text_of;
  parse_float = λ s. raised (exception "ValueError" s);
  dict_of = λ v. raised (exception "TypeError" "dict");
  lower = λ s. s;
}

plain-IsPython : IsPython plain
plain-IsPython = record { str_of-str = λ s. refl }

abbrev int_of : Value → Outcome ℕ
int_of (int (pos n)) = returned n
int_of _ = raised (exception "ValueError" "int")

abbrev success_of : String → BanditOutcome
success_of name = record { provider_name = name; success = true; reward = pos 0; context_key = "" }

abbrev history : List (BanditOutcome × ℤ)
history = (success_of "a", pos 1) ∷ (success_of "b", pos 2) ∷ []

abbrev learned : Arms
learned = learn ucb1_update history []

load-save_arms_example :
    load plain int_of memory_storage "ucb1"
      (save memory_storage "ucb1" "UCB1Bandit" (pos 9) learned [])
      (("old", []) ∷ [])
    ≡ (returned tt, learned)
load-save_arms_example =
    load-save_arms plain plain-IsPython int_of (λ n. refl) memory_storage memory_storage-IsLawful
      "ucb1" "UCB1Bandit" (pos 9) learned (("old", []) ∷ []) [] (learn-NodupKeys history [] tt)

-- A payload that is no dict of dicts raises after the old arms are gone.
broken_payload :
    load_value plain int_of
      (dict (field "arms" (dict (field "a" (int (pos 1)) end)) end))
      (("old", []) ∷ [])
    ≡ (raised (exception "AttributeError" "not a dict"), [])
unfolding load
broken_payload = refl
