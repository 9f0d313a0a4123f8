-- ===== src/Verifier/Audit.antt =====
-- src/primal_ai/verifier/_core.py: the registry of layers, the default chain and `Verifier.audit`.
-- Layers and factories are the caller's code, on a state `S`; a layer's call also says how many
-- milliseconds it took.
pub mod Layers
pub mod Defaults
use primal_core.Base.{
  ℕ, suc, String, ◌++◌, Bool, true, false, Option, none, some, List, [], ◌∷◌, map, length, Outcome,
  returned, raised, violation, exception, base_exception, ◌⊎◌, inl, inr, get_or,
}
use primal_core.Base.Value.{Value, null, dict, field, end, str}
use primal_core.Base.Dict.{Dict, get, put}
use primal_core.Base.Int.{ℤ, pos}
use primal_core.Trajectory.{Trajectory, find_steps}
use primal_core.Trajectory.Steps.{Step}
use primal_core.Guardian.Policy.{and_then}
use primal_core.Verifier.Verdict.{
  VerdictStatus, uncertain_status, Reason, layer_raised, Verdict, VerdictDict, to_dict,
  aggregate_status, aggregate_confidence, aggregate_cost,
}

pub data Target : Type 0 where
  raw : Value → Target
  recorded : Trajectory → Target

pub record Layer (S : Type 0) : Type 0 where
  pub name : String
  pub accepts_trajectory : Bool
  pub verify : Target → S → (Outcome Verdict × ℕ) × S

-- `_REGISTRY` and `_default_layers`, with the callers' state
pub record Verifiers (S : Type 0) : Type 0 where
  pub registry : Dict (S → Outcome (Layer S) × S)
  pub default_layers : List (Layer S)
  pub state : S

-- What `audit` returns
pub record Report : Type 0 where
  pub status : VerdictStatus
  pub verdicts : List VerdictDict
  pub confidence : ℤ × ℕ
  pub total_cost : Option ℤ
  pub layer_count : ℕ

-- `outputs[-1].data`, or `None`
abbrev pub last_data : List Step → Value
last_data [] = null
last_data (s ∷ []) = dict s.data_
last_data (s ∷ t ∷ ss) = last_data (t ∷ ss)

unfoldable pub extract_output_from_trajectory : Trajectory → Value
extract_output_from_trajectory t = last_data (find_steps (some "OUTPUT") none t)

-- The verdict on a layer that raised
abbrev pub raised_verdict : String → String → String → ℕ → Verdict
raised_verdict name cls message latency = record {
  verifier_name = name;
  status = uncertain_status;
  confidence = pos 0;
  reasons = layer_raised name cls message ∷ [];
  details = field "exception_type" (str cls) end;
  cost = none;
  latency_ms = some latency;
}

-- What `_run_layer` makes of what the layer did; of a `PolicyViolation` the message keeps its name.
abbrev pub judged : String → Outcome Verdict × ℕ → Outcome Verdict
judged name (returned v, elapsed) =
    returned (record v { latency_ms = some (get_or v.latency_ms elapsed) })
judged name (raised (violation v), elapsed) =
    returned (raised_verdict name "PolicyViolation" v.policy_name elapsed)
judged name (raised (exception cls message), elapsed) =
    returned (raised_verdict name cls message elapsed)
judged name (raised (base_exception cls message), elapsed) = raised (base_exception cls message)

abbrev pub report : List Verdict → Report
report verdicts = record {
  status = aggregate_status verdicts;
  verdicts = map to_dict verdicts;
  confidence = aggregate_confidence verdicts;
  total_cost = aggregate_cost verdicts;
  layer_count = length verdicts;
}

module _ {S : Type 0} where
  unfoldable pub register_verifier :
      String → (S → Outcome (Layer S) × S) → Verifiers S → Verifiers S
  register_verifier name factory vs = record vs { registry = put name factory vs.registry }

  -- The message of the error is the format's argument, the name.
  unfoldable pub resolve_layer : String → Verifiers S → Outcome (Layer S) × Verifiers S
  resolve_layer name vs = elim (get name vs.registry) [
    | none ↦ (raised (exception "ValueError" name), vs)
    | some factory ↦ let (o, s) = factory vs.state in (o, record vs { state = s })
  ]

  -- The loop of `_resolve_layers`
  unfoldable pub resolve_each :
      List (String ⊎ Layer S) → Verifiers S → Outcome (List (Layer S)) × Verifiers S
  resolve_each [] vs = (returned [], vs)
  resolve_each (inl name ∷ items) vs =
      and_then (resolve_layer name vs) (λ layer vs1.
        and_then (resolve_each items vs1) (λ rest vs2. (returned (layer ∷ rest), vs2)))
  resolve_each (inr layer ∷ items) vs =
      and_then (resolve_each items vs) (λ rest vs2. (returned (layer ∷ rest), vs2))

  unfoldable pub resolve_layers :
      Option (List (String ⊎ Layer S)) → Verifiers S → Outcome (List (Layer S)) × Verifiers S
  resolve_layers none vs = (returned vs.default_layers, vs)
  resolve_layers (some items) vs = resolve_each items vs

  unfoldable pub target_for_layer : Layer S → Target → Target
  target_for_layer layer (raw v) = raw v
  target_for_layer layer (recorded t) = elim layer.accepts_trajectory [
    | true ↦ recorded t
    | false ↦ raw (extract_output_from_trajectory t)
  ]

  unfoldable pub run_layer : Layer S → Target → S → Outcome Verdict × S
  run_layer layer target s = let (o, s') = layer.verify target s in (judged layer.name o, s')

  -- The loop of `audit`
  unfoldable pub run_layers : List (Layer S) → Target → S → Outcome (List Verdict) × S
  run_layers [] output s = (returned [], s)
  run_layers (layer ∷ layers) output s =
      and_then (run_layer layer (target_for_layer layer output) s)
        (λ v s1. and_then (run_layers layers output s1) (λ rest s2. (returned (v ∷ rest), s2)))

  unfoldable pub audit :
      Target → Option (List (String ⊎ Layer S)) → Verifiers S → Outcome Report × Verifiers S
  audit output layers vs = and_then (resolve_layers layers vs) (λ resolved vs1.
      let (o, s) = run_layers resolved output vs1.state in
      and_then (o, record vs1 { state = s }) (λ verdicts vs2. (returned (report verdicts), vs2)))

  -- `Verifier.set_default_layers`
  unfoldable pub set_default_layers :
      List (String ⊎ Layer S) → Verifiers S → Outcome (Unit {0}) × Verifiers S
  set_default_layers layers vs =
      and_then (resolve_layers (some layers) vs)
        (λ resolved vs1. (returned tt, record vs1 { default_layers = resolved }))
