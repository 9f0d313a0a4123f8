-- ===== src/Atlas/Bandits.antt =====
-- src/primal_ai/atlas/bandit.py: the arms, Thompson sampling and UCB1. Floats and the draws of
-- `random.Random` are parameters.
pub mod Scores
pub mod Updates
pub mod Exploring
pub mod Persistence
pub mod Tests
use primal_core.Base.{
  ℕ, ◌+◌, ◌*◌, String, Bool, true, false, Option, none, some, List, [], ◌∷◌, ◌==◌, ltb, get_or,
  str_eq, if◌then◌else◌, ◌&&◌,
}
use primal_core.Base.Dict.{Dict, get, put}
use primal_core.Base.Int.{ℤ, pos, ◌+ℤ◌, is_zero}
use primal_core.Atlas.Provider.{BanditOutcome}

-- The arithmetic of Python's floats and of `math`
pub record Floats : Type 1 where
  pub F : Type 0
  pub less : F → F → Bool
  pub inf : F
  pub add : F → F → F
  pub mul : F → F → F
  pub div : F → F → F
  pub sqrt : F → F
  pub log : F → F
  pub of_count : ℕ → F
  pub of_millionths : ℤ → F

pub record ArmState : Type 0 where
  pub provider_name : String
  pub context_key : String
  pub successes : ℕ
  pub failures : ℕ
  pub total_reward : ℤ
  pub pulls : ℕ
  pub last_updated : ℤ

abbrev pub new_arm : String → String → ArmState
new_arm provider_name context_key = record {
  provider_name = provider_name;
  context_key = context_key;
  successes = 0;
  failures = 0;
  total_reward = pos 0;
  pulls = 0;
  last_updated = pos 0;
}

-- `_arms`: provider name, then context key
abbrev pub Arms : Type 0
Arms = Dict (Dict ArmState)

unfoldable pub state_for : String → String → Arms → Option ArmState
unfolding get
state_for name key arms = get key (get_or (get name arms) [])

-- The arm of a pair is written back, since Python mutates it in place.
unfoldable pub set_arm : String → String → ArmState → Arms → Arms
unfolding get put
set_arm name key arm arms = put name (put key arm (get_or (get name arms) [])) arms

-- `_ensure_arm`: the arm, and the arms with it
abbrev pub ensured : String → String → Arms → Option ArmState → ArmState × Arms
unfolding set_arm
ensured name key arms (some arm) = (arm, arms)
ensured name key arms none = (new_arm name key, set_arm name key (new_arm name key) arms)

unfoldable pub ensure_arm : String → String → Arms → ArmState × Arms
unfolding state_for set_arm
ensure_arm name key arms = ensured name key arms (state_for name key arms)

-- `_context_key`
abbrev pub context_key_of : Option String → String
context_key_of key = get_or key ""

-- `successes` or `failures`, and `last_updated`, as both algorithms count them
abbrev pub counted : BanditOutcome → ℤ → ArmState → ArmState
counted o timestamp arm = record arm {
  successes = if o.success then arm.successes + 1 else arm.successes;
  failures = if o.success then arm.failures else arm.failures + 1;
  last_updated = timestamp;
}

-- `ThompsonBandit.update`; `timestamp` is that of the outcome.
unfoldable pub thompson_update : BanditOutcome → ℤ → Arms → Arms
unfolding ensure_arm set_arm
thompson_update o timestamp arms =
    let (arm, arms') = ensure_arm o.provider_name o.context_key arms in
    set_arm o.provider_name o.context_key (counted o timestamp arm) arms'

-- A reward of 0.0 on a success counts as 1.0.
abbrev pub reward_of : BanditOutcome → ℤ
reward_of o = if is_zero o.reward && o.success then pos 1000000 else o.reward

-- `UCB1Bandit.update`
unfoldable pub ucb1_update : BanditOutcome → ℤ → Arms → Arms
unfolding ensure_arm set_arm ◌+ℤ◌
ucb1_update o timestamp arms =
    let (arm, arms') = ensure_arm o.provider_name o.context_key arms in
    set_arm o.provider_name o.context_key
      (record (counted o timestamp arm) {
        pulls = arm.pulls + 1;
        total_reward = arm.total_reward +ℤ reward_of o;
      })
      arms'

-- The pulls of one context over all providers
abbrev pub pulls_at : String → Dict ArmState → ℕ
pulls_at key [] = 0
pulls_at key ((k, arm) ∷ by_ctx) = (if str_eq k key then arm.pulls else 0) + pulls_at key by_ctx

unfoldable pub total_pulls : String → Arms → ℕ
total_pulls key [] = 0
total_pulls key ((name, by_ctx) ∷ arms) = pulls_at key by_ctx + total_pulls key arms

module _ (fl : Floats) where
  open fl use {F, less, inf, add, mul, div, sqrt, log, of_count, of_millionths}

  -- `max(scores, key=...)`: the first of the largest
  abbrev pub best_from : String × F → Dict F → String
  best_from (name, x) [] = name
  best_from (name, x) ((k, y) ∷ scores) = best_from (if less x y then (k, y) else (name, x)) scores

  abbrev pub best : Dict F → Option String
  best [] = none
  best (s ∷ scores) = some (best_from s scores)

  -- The loop of `ThompsonBandit.select_with_metadata`; `draw a b` is `betavariate(a, b)`, on the
  -- state of the generator.
  module _ {R : Type 0} (draw : ℕ → ℕ → R → F × R) where
    unfoldable pub sample_all : List String → String → Dict F → Arms → R → Dict F × Arms × R
    unfolding ensure_arm put
    sample_all [] key scores arms rng = (scores, arms, rng)
    sample_all (name ∷ names) key scores arms rng =
        let (arm, arms') = ensure_arm name key arms in
        let (x, rng') = draw (arm.successes + 1) (arm.failures + 1) rng in
        sample_all names key (put name x scores) arms' rng'

    -- The standard deviation of the posterior of the chosen arm
    abbrev pub posterior_std : ArmState → Option F
    posterior_std arm =
        let a = arm.successes + 1 in
        let b = arm.failures + 1 in
        let denom = (a + b) * (a + b) * (a + b + 1) in
        if ltb 0 denom then some (sqrt (div (of_count (a * b)) (of_count denom))) else none

    unfoldable pub thompson_select :
        List String → Option String → Arms → R → (Option String × Dict F × Option F) × Arms × R
    unfolding sample_all state_for
    thompson_select [] context arms rng = ((none, [], none), arms, rng)
    thompson_select (name ∷ names) context arms rng =
        let key = context_key_of context in
        let (scores, arms', rng') = sample_all (name ∷ names) key [] arms rng in
        let chosen = get_or (best scores) name in
        let arm = get_or (state_for chosen key arms') (new_arm chosen key) in
        ((best scores, scores, posterior_std arm), arms', rng')

  module _ (c : F) where
    abbrev pub exploration : ℕ → ArmState → F
    exploration total arm =
        mul c (sqrt (div (log (of_count (if ltb total 1 then 1 else total))) (of_count arm.pulls)))

    abbrev pub ucb1_score : ℕ → ArmState → F
    ucb1_score total arm =
        if arm.pulls == 0
        then inf
        else add (div (of_millionths arm.total_reward) (of_count arm.pulls)) (exploration total arm)

    -- The loop of `UCB1Bandit.select_with_metadata`
    unfoldable pub score_all : ℕ → List String → String → Dict F → Arms → Dict F × Arms
    unfolding ensure_arm put
    score_all total [] key scores arms = (scores, arms)
    score_all total (name ∷ names) key scores arms =
        let (arm, arms') = ensure_arm name key arms in
        score_all total names key (put name (ucb1_score total arm) scores) arms'

    unfoldable pub ucb1_select :
        List String → Option String → Arms → (Option String × Dict F × Option F) × Arms
    unfolding score_all total_pulls state_for
    ucb1_select [] context arms = ((none, [], none), arms)
    ucb1_select (name ∷ names) context arms =
        let key = context_key_of context in
        let total = total_pulls key arms in
        let (scores, arms') = score_all total (name ∷ names) key [] arms in
        let chosen = get_or (best scores) name in
        let arm = get_or (state_for chosen key arms') (new_arm chosen key) in
        let term = if arm.pulls == 0 then none else some (exploration total arm) in
        ((best scores, scores, term), arms')
