-- ===== src/Verifier/Tests.antt =====
-- Runs of the verifier model (src/primal_ai/verifier) on small layers.
use primal_core.Base.{
  Option, ◌⊎◌, String, refl, inl, ℕ, suc, ◌≡◌, false, not, ◌&&◌, all, some, none, [], ◌∷◌, List,
  inr, returned, raised, exception, All,
}
use primal_core.Base.Int.{pos}
use primal_core.Base.Value.{null, end}
use primal_core.Verifier.Verdict.{
  Verdict, VerdictStatus, pass_status, uncertain_status, aggregate_status, statuses,
}
use primal_core.Verifier.Verdict.Aggregation.{rule, is_pass, is_empty, aggregate_status-rule}
use primal_core.Verifier.Audit.{
  raw, Layer, Verifiers, Report, audit, resolve_layers, resolve_each, resolve_layer,
}
use primal_core.Base.Dict.{get}
use primal_core.Verifier.Audit.Layers.{NeverEscapes, answers, answered_pass, audit_passes}

abbrev saying : VerdictStatus → Verdict
saying s = record {
  verifier_name = "v";
  status = s;
  confidence = pos 1000000;
  reasons = [];
  details = end;
  cost = none;
  latency_ms = none;
}

abbrev mixed : List Verdict
mixed = saying pass_status ∷ saying uncertain_status ∷ saying pass_status ∷ []

aggregate_status-rule_example : aggregate_status mixed ≡ rule (statuses mixed)
aggregate_status-rule_example = aggregate_status-rule mixed

abbrev content : Layer ℕ
content = record {
  name = "content";
  accepts_trajectory = false;
  verify = λ t s. ((returned (saying pass_status), 3), suc s);
}

abbrev broken : Layer ℕ
broken = record {
  name = "broken";
  accepts_trajectory = false;
  verify = λ t s. ((raised (exception "RuntimeError" "down"), 3), suc s);
}

abbrev layers : List (Layer ℕ)
layers = content ∷ broken ∷ []

abbrev verifiers : Verifiers ℕ
verifiers = record {
  registry = ("content", λ s. (returned content, suc s)) ∷ [];
  default_layers = [];
  state = 0;
}

-- One layer by its name, one as an object
abbrev chosen : Option (List (String ⊎ Layer ℕ))
chosen = some (inl "content" ∷ inr broken ∷ [])

caught : All NeverEscapes layers
caught = ((λ t s. tt), ((λ t s. tt), tt))

audit_passes_example :
    (r : Report) × (vs' : Verifiers ℕ) × (audit (raw null) chosen verifiers ≡ (returned r, vs'))
    × (is_pass r.status
        ≡ (all answered_pass (answers layers (raw null) 1).0 && not (is_empty layers)))
unfolding resolve_layers resolve_each resolve_layer get
audit_passes_example =
    audit_passes chosen layers (raw null) verifiers (record verifiers { state = 1 }) refl caught
