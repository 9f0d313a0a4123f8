-- ===== src/Atlas/Bandits/Updates.antt =====
-- What the updates of src/primal_ai/atlas/bandit.py make of the arms, over a whole history.
use primal_core.Base.{
  ℕ, ◌+◌, ◌≡◌, refl, String, Bool, true, Option, none, some, List, [], ◌∷◌, get_or, str_eq, eq_iff,
  if◌then◌else◌, ◌&&◌, arith, not,
}
use primal_core.Base.Dict.{get, put, get-put}
use primal_core.Base.Int.{ℤ, ◌+ℤ◌}
use primal_core.Atlas.Provider.{BanditOutcome}
use primal_core.Atlas.Bandits.{
  ArmState, Arms, new_arm, state_for, ensured, ensure_arm, set_arm, counted, reward_of,
  thompson_update, ucb1_update,
}

-- The arm of a pair, as it is or as it would be created
abbrev pub arm_at : String → String → Arms → ArmState
unfolding state_for
arm_at name key arms = get_or (state_for name key arms) (new_arm name key)

abbrev pub is_pair : String → String → String → String → Bool
is_pair n k name key = str_eq n name && str_eq k key

state_for-set_arm :
    (n k : String) (arm : ArmState) (arms : Arms) (name key : String)
    → state_for name key (set_arm n k arm arms)
      ≡ (if is_pair n k name key then some arm else state_for name key arms)
unfolding state_for set_arm
state_for-set_arm n k arm arms name key = ground (
  arith,
  eq_iff n name,
  eq_iff k key,
  get-put n name (put k arm (get_or (get n arms) [])) arms,
  get-put k key arm (get_or (get n arms) []),
)

ensured-get_or :
    (n k : String) (arms : Arms) (o : Option ArmState)
    → (ensured n k arms o).0 ≡ get_or o (new_arm n k)
unfolding set_arm
ensured-get_or n k arms none = refl
ensured-get_or n k arms (some arm) = refl

pub ensure_arm-arm_at : (n k : String) (arms : Arms) → (ensure_arm n k arms).0 ≡ arm_at n k arms
unfolding ensure_arm
ensure_arm-arm_at n k arms = ensured-get_or n k arms (state_for n k arms)

ensured-state_for :
    (n k : String) (arms : Arms) (o : Option ArmState) (name key : String)
    → state_for n k arms ≡ o
    → state_for name key (ensured n k arms o).1
      ≡ (if is_pair n k name key then some (get_or o (new_arm n k)) else state_for name key arms)
unfolding set_arm
ensured-state_for n k arms none name key e = state_for-set_arm n k (new_arm n k) arms name key
ensured-state_for n k arms (some arm) name key e = ground (arith, eq_iff n name, eq_iff k key, e)

pub arm_at-ensure_arm :
    (n k name key : String) (arms : Arms)
    → arm_at name key (ensure_arm n k arms).1 ≡ arm_at name key arms
unfolding ensure_arm
arm_at-ensure_arm n k name key arms = ground (
  arith,
  eq_iff n name,
  eq_iff k key,
  ensured-state_for n k arms (state_for n k arms) name key refl,
)

-- An update writes one arm and leaves the others.
state_for_written :
    (n k : String) (arm : ArmState) (arms : Arms) (name key : String)
    → state_for name key (set_arm n k arm (ensure_arm n k arms).1)
      ≡ (if is_pair n k name key then some arm else state_for name key arms)
unfolding ensure_arm
state_for_written n k arm arms name key = ground (
  arith,
  state_for-set_arm n k arm (ensure_arm n k arms).1 name key,
  ensured-state_for n k arms (state_for n k arms) name key refl,
)

-- How many outcomes of a history are for a pair and pass a test
abbrev pub matching : String → String → (BanditOutcome → Bool) → List (BanditOutcome × ℤ) → ℕ
matching name key p [] = 0
matching name key p ((o, timestamp) ∷ outcomes) =
    (if is_pair o.provider_name o.context_key name key && p o then 1 else 0)
    + matching name key p outcomes

-- The updates of a history, in order
abbrev pub learn : (BanditOutcome → ℤ → Arms → Arms) → List (BanditOutcome × ℤ) → Arms → Arms
learn update [] arms = arms
learn update ((o, timestamp) ∷ outcomes) arms = learn update outcomes (update o timestamp arms)

abbrev pub any_outcome : BanditOutcome → Bool
any_outcome o = true

abbrev pub is_success : BanditOutcome → Bool
is_success o = o.success

abbrev pub is_failure : BanditOutcome → Bool
is_failure o = not o.success

pub ucb1_update-arm_at :
    (o : BanditOutcome) (timestamp : ℤ) (arms : Arms) (name key : String)
    → let hit = is_pair o.provider_name o.context_key name key in
      let before = arm_at name key arms in
      let after = arm_at name key (ucb1_update o timestamp arms) in
      (after.pulls ≡ before.pulls + (if hit then 1 else 0))
      × (after.successes ≡ before.successes + (if hit && o.success then 1 else 0))
      × (after.failures ≡ before.failures + (if hit && not o.success then 1 else 0))
unfolding ucb1_update
ucb1_update-arm_at o timestamp arms name key =
    let (arm, arms') = ensure_arm o.provider_name o.context_key arms in
    ground (
      arith,
      eq_iff o.provider_name name,
      eq_iff o.context_key key,
      ensure_arm-arm_at o.provider_name o.context_key arms,
      state_for_written o.provider_name o.context_key
          (record (counted o timestamp arm) {
            pulls = arm.pulls + 1;
            total_reward = arm.total_reward +ℤ reward_of o;
          })
          arms name key,
    )

thompson_update-arm_at :
    (o : BanditOutcome) (timestamp : ℤ) (arms : Arms) (name key : String)
    → let hit = is_pair o.provider_name o.context_key name key in
      let before = arm_at name key arms in
      let after = arm_at name key (thompson_update o timestamp arms) in
      (after.pulls ≡ before.pulls)
      × (after.successes ≡ before.successes + (if hit && o.success then 1 else 0))
      × (after.failures ≡ before.failures + (if hit && not o.success then 1 else 0))
unfolding thompson_update
thompson_update-arm_at o timestamp arms name key =
    let (arm, arms') = ensure_arm o.provider_name o.context_key arms in
    ground (
      arith,
      eq_iff o.provider_name name,
      eq_iff o.context_key key,
      ensure_arm-arm_at o.provider_name o.context_key arms,
      state_for_written o.provider_name o.context_key (counted o timestamp arm) arms name key,
    )

-- UCB1: after any history an arm's pulls, successes and failures have grown by the outcomes, the
-- successes and the failures of the history for its provider and context; no other outcome counts.
pub learn-ucb1_update :
    (outcomes : List (BanditOutcome × ℤ)) (arms : Arms) (name key : String)
    → let before = arm_at name key arms in
      let after = arm_at name key (learn ucb1_update outcomes arms) in
      (after.pulls ≡ before.pulls + matching name key any_outcome outcomes)
      × (after.successes ≡ before.successes + matching name key is_success outcomes)
      × (after.failures ≡ before.failures + matching name key is_failure outcomes)
learn-ucb1_update [] arms name key = omega arith
learn-ucb1_update ((o, timestamp) ∷ outcomes) arms name key = ground (
  arith,
  learn-ucb1_update outcomes (ucb1_update o timestamp arms) name key,
  ucb1_update-arm_at o timestamp arms name key,
)

-- Thompson sampling counts the successes and the failures in the same way.
pub learn-thompson_update :
    (outcomes : List (BanditOutcome × ℤ)) (arms : Arms) (name key : String)
    → let before = arm_at name key arms in
      let after = arm_at name key (learn thompson_update outcomes arms) in
      (after.pulls ≡ before.pulls)
      × (after.successes ≡ before.successes + matching name key is_success outcomes)
      × (after.failures ≡ before.failures + matching name key is_failure outcomes)
learn-thompson_update [] arms name key = omega arith
learn-thompson_update ((o, timestamp) ∷ outcomes) arms name key = ground (
  arith,
  learn-thompson_update outcomes (thompson_update o timestamp arms) name key,
  thompson_update-arm_at o timestamp arms name key,
)
