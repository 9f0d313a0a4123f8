-- ===== src/Atlas/Bandits/Persistence.antt =====
-- src/primal_ai/atlas/bandit.py: the dicts of the arms, `save` and `load` over any store. `int_of` is
-- `int` of a value, a parameter; its answers are natural numbers, so a payload with a negative count
-- is not modelled.
pub mod RoundTrip
mod Tests
use primal_core.Base.{ℕ, String, ◌<>◌, List, [], ◌∷◌, Outcome, returned, raised, ◌>>=◌}
use primal_core.Base.Dict.{Dict, put}
use primal_core.Base.Int.{ℤ, pos}
use primal_core.Base.Python.{
  Python, either_or, value_at, item_at, as_fields, with_methods, to_float,
}
use primal_core.Base.Value.{Value, null, int, float, str, dict, Fields, field, end}
use primal_core.Guardian.Policy.{and_then}
use primal_core.Storage.{Storage}
use primal_core.Atlas.Bandits.{ArmState, Arms}

-- `ArmState.to_dict`
unfoldable pub to_dict : ArmState → Fields
to_dict arm = field "provider_name" (str arm.provider_name) (
    field "context_key" (str arm.context_key) (
      field "successes" (int (pos arm.successes)) (
        field "failures" (int (pos arm.failures)) (
          field "total_reward" (float arm.total_reward) (
            field "pulls" (int (pos arm.pulls))
              (field "last_updated" (float arm.last_updated) end))))))

-- The comprehensions of `save`
unfoldable pub context_dicts : Dict ArmState → Fields
unfolding to_dict
context_dicts [] = end
context_dicts ((key, arm) ∷ by_ctx) = field key (dict (to_dict arm)) (context_dicts by_ctx)

unfoldable pub snapshot : Arms → Fields
unfolding context_dicts
snapshot [] = end
snapshot ((provider, by_ctx) ∷ arms) = field provider (dict (context_dicts by_ctx)) (snapshot arms)

-- `_storage_key`
abbrev pub storage_key : String → String
storage_key name = "atlas:bandit:" <> name

-- `save`, of a bandit with its name and class, at the time `now`
unfoldable pub save : (T : Storage) → String → String → ℤ → Arms → T.State → T.State
unfolding snapshot
save T name algorithm now arms s =
    T.put (storage_key name)
      (dict (
        field "bandit_name" (str name) (
          field "algorithm" (str algorithm)
            (field "saved_at" (float now) (field "arms" (dict (snapshot arms)) end)))))
      s

module _ (py : Python) (int_of : Value → Outcome ℕ) where
  -- `int(payload.get(k) or 0)`
  abbrev pub count_at : String → Fields → Outcome ℕ
  count_at k payload = int_of (either_or (value_at k payload) (int (pos 0)))

  -- `float(payload.get(k) or 0.0)`
  abbrev pub float_at : String → Fields → Outcome ℤ
  float_at k payload = to_float py (either_or (value_at k payload) (float (pos 0)))

  -- `ArmState.from_dict`
  unfoldable pub from_dict : Fields → Outcome ArmState
  unfolding item_at value_at either_or to_float
  from_dict payload = do
    provider_name ← item_at "provider_name" payload
    successes ← count_at "successes" payload
    failures ← count_at "failures" payload
    total_reward ← float_at "total_reward" payload
    pulls ← count_at "pulls" payload
    last_updated ← float_at "last_updated" payload
    returned (record {
      provider_name = py.str_of provider_name;
      context_key = py.str_of (either_or (value_at "context_key" payload) (str ""));
      successes = successes;
      failures = failures;
      total_reward = total_reward;
      pulls = pulls;
      last_updated = last_updated;
    })

  -- The comprehension of `load`, for one provider
  unfoldable pub contexts_from : Fields → Outcome (Dict ArmState)
  unfolding from_dict
  contexts_from end = returned []
  contexts_from (field key v fs) = do
    payload ← as_fields v
    arm ← from_dict payload
    rest ← contexts_from fs
    returned ((key, arm) ∷ rest)

  -- The loop of `load`: what raises leaves the arms of the providers before it.
  unfoldable pub fill : Fields → Arms → Outcome (Unit {0}) × Arms
  unfolding contexts_from put
  fill end arms = (returned tt, arms)
  fill (field provider v fs) arms =
      and_then (with_methods v >>= contexts_from, arms)
        λ by_ctx arms'. fill fs (put provider by_ctx arms')

  -- `load`, given what the store answers; the arms are emptied before the loop.
  abbrev pub load_value : Value → Arms → Outcome (Unit {0}) × Arms
  unfolding value_at either_or fill
  load_value null arms = (returned tt, arms)
  load_value payload arms =
      and_then (with_methods payload, arms)
        λ fs arms'. and_then (with_methods (either_or (value_at "arms" fs) (dict end)), []) fill

  unfoldable pub load : (T : Storage) → String → T.State → Arms → Outcome (Unit {0}) × Arms
  unfolding value_at either_or fill
  load T name s arms = load_value (T.get (storage_key name) s) arms
