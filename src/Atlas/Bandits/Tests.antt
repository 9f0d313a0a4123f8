-- ===== src/Atlas/Bandits/Tests.antt =====
-- Runs of the selectors of src/primal_ai/atlas/bandit.py, with whole numbers and infinity as floats.
use primal_core.Base.{
  ◌&&◌, ℕ, ◌+◌, ◌≡◌, refl, String, Bool, true, false, Option, none, some, List, [], ◌∷◌, ltb, ◌==◌,
  get_or, contains, arith, map, keep, returned, str_eq, if◌then◌else◌,
}
use primal_core.Base.Dict.{get, put, values}
use primal_core.Base.Int.{ℤ, pos, pos_part}
use primal_core.Atlas.Provider.{BanditOutcome, Provider, Context, no_override}
use primal_core.Atlas.Bandits.{Floats, Arms, ucb1_update}
use primal_core.Atlas.Bandits.Scores.{IsFinite}
use primal_core.Atlas.Bandits.Updates.{
  arm_at, learn, matching, any_outcome, is_success, is_failure, learn-ucb1_update,
}
use primal_core.Atlas.Registry.{ProviderRegistry, register, all_providers, get_provider, get_health}
use primal_core.Atlas.Registry.Valid.{IsValid, register-IsValid}
use primal_core.Atlas.Health.{is_healthy}
use primal_core.Atlas.State.{Atlas}
use primal_core.Atlas.Router.{initial_pool}
use primal_core.Atlas.Router.Invoke.{invoke}
use primal_core.Atlas.Choice.{is_eligible}
use primal_core.Atlas.Exploration.{ucb1_bandit}
use primal_core.Atlas.Exploration.Progress.{answer_of, answers?, invoke_explores}

abbrev below : Option ℕ → Option ℕ → Bool
below none y = false
below (some a) none = true
below (some a) (some b) = ltb a b

abbrev sum_of : Option ℕ → Option ℕ → Option ℕ
sum_of a b = some (get_or a 0 + get_or b 0)

abbrev whole : Floats
whole = record {
  F = Option ℕ;
  less = below;
  inf = none;
  add = sum_of;
  mul = sum_of;
  div = sum_of;
  sqrt = λ a. a;
  log = λ a. a;
  of_count = λ n. some n;
  of_millionths = λ x. some (pos_part x);
}

whole-IsFinite : IsFinite whole (some 2)
whole-IsFinite = record { less_inf = λ x. refl; score_less = λ total arm h. ground arith }

abbrev outcome : String → Bool → BanditOutcome
outcome name success = record {
  provider_name = name;
  success = success;
  reward = pos 0;
  context_key = "";
}

abbrev history : List (BanditOutcome × ℤ)
history = (outcome "a" true, pos 1) ∷ (outcome "b" false, pos 2) ∷ (outcome "a" false, pos 3) ∷ []

abbrev pulled : Arms
pulled = learn ucb1_update history []

learn-ucb1_update_example :
    ((arm_at "a" "" pulled).pulls ≡ (arm_at "a" "" []).pulls + matching "a" "" any_outcome history)
    × ((arm_at "a" "" pulled).successes
        ≡ (arm_at "a" "" []).successes + matching "a" "" is_success history)
    × ((arm_at "a" "" pulled).failures
        ≡ (arm_at "a" "" []).failures + matching "a" "" is_failure history)
learn-ucb1_update_example = learn-ucb1_update history [] "a" ""

abbrev provider : String → Provider ℕ
provider n = record {
  name = n;
  info = record { name = n; description = ""; capabilities = []; tags = [] };
  call = λ task kwargs now. (returned 7, 5);
}

abbrev empty : ProviderRegistry ℕ
empty = record { providers = []; health = [] }

empty-IsValid : IsValid empty
unfolding get
empty-IsValid = record { paired = λ n. refl; counted = λ n h e. cc e; owned = (tt, tt) }

abbrev three : ProviderRegistry ℕ
three = (register (provider "c") (register (provider "b") (register (provider "a") empty).1).1).1

three-IsValid : IsValid three
three-IsValid =
    register-IsValid (provider "c") (register (provider "b") (register (provider "a") empty).1).1 (
      register-IsValid (provider "b") (register (provider "a") empty).1
        (register-IsValid (provider "a") empty empty-IsValid))

abbrev ctx : Context Arms
ctx = record { capability = none; tags = []; selector = no_override; bandit_context_key = none }

abbrev atlas : Atlas ℕ Arms
atlas = record {
  registry = three;
  active_selector = some (ucb1_bandit whole (some 2) (λ o. pos 4) "ucb1");
  factories = [];
  bandits = pulled;
  now = 0;
  events = [];
  trajectory = none;
}

invoke_explores_example :
    (x : String) × (p : Provider ℕ) × (get_provider x three ≡ some p)
    × (contains x (map (λ p. p.name) (keep (is_eligible ctx atlas) (initial_pool three none)))
        ≡ true)
    × (((arm_at x "" pulled).pulls == 0) ≡ true)
    × ((invoke "task" none [] ctx atlas).0 ≡ returned (x, answer_of (p.call "task" [] 0).0))
    × ((n : String)
        → ((arm_at n "" (invoke "task" none [] ctx atlas).1.bandits).pulls
            ≡ (arm_at n "" pulled).pulls + (if str_eq x n then 1 else 0))
          × ((arm_at n "" (invoke "task" none [] ctx atlas).1.bandits).successes
              ≡ (arm_at n "" pulled).successes
                + (if str_eq x n && answers? (p.call "task" [] 0).0 then 1 else 0)))
unfolding register get put values ucb1_update initial_pool all_providers get_health is_healthy
invoke_explores_example =
    invoke_explores whole (some 2) (λ o. pos 4) "ucb1" whole-IsFinite "task" none [] ctx atlas "c"
      refl refl three-IsValid ((λ now. tt), ((λ now. tt), ((λ now. tt), tt))) refl refl
