-- ===== src/Guardian/Redact.antt =====
-- src/primal_ai/guardian/_builtins/pii_redact.py. `sub p t` is `pattern.sub(REDACTED, t)`, Python's,
-- a parameter. Dicts and lists are mutated in place: the model returns what they become.
pub mod Clean
use primal_core.Base.{String, Bool, true, false, List, [], ◌∷◌, if◌then◌else◌, contains}
use primal_core.Base.Value.{
  Value, null, bool, int, float, str, list, tuple, dict, object, Items, nil, cons, Fields, end,
  field,
}
use primal_core.Guardian.Policy.{Call}

abbrev pub redacted : Value
redacted = str "[REDACTED]"

module _ (sub : String → String → String) (patterns : List String) (fields : List String) where
  -- `_redact_string`, from the patterns given
  unfoldable pub redact_string : List String → String → String
  redact_string [] t = t
  redact_string (p ∷ ps) t = redact_string ps (sub p t)

  -- `_redact`
  unfoldable mutual
    pub redact : Value → Value
    redact (str t) = str (redact_string patterns t)
    redact (dict fs) = dict (redact_fields fs)
    redact (list vs) = list (redact_items vs)
    redact null = null
    redact (bool b) = bool b
    redact (int n) = int n
    redact (float x) = float x
    redact (tuple vs) = tuple vs
    redact (object c) = object c

    pub redact_fields : Fields → Fields
    redact_fields end = end
    redact_fields (field k v fs) =
        let v' = redact v in
        let rest = redact_fields fs in field k (if contains k fields then redacted else v') rest

    pub redact_items : Items → Items
    redact_items nil = nil
    redact_items (cons v vs) = cons (redact v) (redact_items vs)

  -- `PIIRedact.check_post`
  unfoldable pub check_post : Call → Value → Value
  check_post c result = redact result
