-- ===== src/Harness/Discovery/Tests.antt =====
-- Two tools of src/primal_ai/harness/discovery.py that are registered, one of which is taken away.
use primal_core.Base.{
  ℕ, ◌≡◌, refl, String, true, false, none, some, List, [], ◌∷◌, map, Outcome, returned, raised,
  exception, is_none, contains, arith,
}
use mathlib.Core.Option
use primal_core.Base.Dict.{Dict, get, put, pop}
use primal_core.Base.Value.{Value, str, list, tuple, Items, nil, cons, end}
use primal_core.Base.Python.{Python, IsPython}
use primal_core.Storage.{memory_storage, memory_storage-IsLawful}
use primal_core.Harness.Discovery.{
  register, unregister, ToolInfo, ToolRegistry, tool_key, get_tool, load_from_store,
}
use primal_core.Harness.Discovery.Mirror.{IsTuple, unbound}
use primal_core.Harness.Discovery.Restart.{
  ToolCall, register_call, unregister_call, init, calls, present, load_from_store-calls,
}

abbrev plain : Python
plain = record {
  str_of = λ v. elim v [ str s ↦ s | _ ↦ "other" ];
  parse_float = λ s. raised (exception "ValueError" s);
  dict_of = λ v. raised (exception "TypeError" "not a mapping");
  lower = λ s. s;
}

plain-IsPython : IsPython plain
plain-IsPython = record { str_of-str = λ s. refl }

abbrev tuple_of : Value → Outcome Items
tuple_of (list xs) = returned xs
tuple_of (tuple xs) = returned xs
tuple_of v = raised (exception "TypeError" "not iterable")

tuple_of-IsTuple : IsTuple tuple_of
tuple_of-IsTuple = record { of_list = λ xs. refl; of_tuple = λ xs. refl }

-- A tool with a handler, which is a number here
abbrev tool : String → String → ToolInfo ℕ
tool name tag = record {
  name = name;
  description = "";
  tags = cons (str tag) nil;
  metadata = end;
  handler = some 7;
}

abbrev history : List (ToolCall ℕ)
history =
    register_call (tool "search" "web")
    ∷ register_call (tool "dig" "net")
    ∷ unregister_call "search"
    ∷ []

abbrev names : List String
names = "search" ∷ "dig" ∷ []

abbrev list_keys : String → List String
list_keys prefix = map tool_key names

abbrev before : ToolRegistry ℕ memory_storage
before = init (some [])

abbrev restarted : ToolRegistry ℕ memory_storage
restarted = init none

names-cover :
    (name : String)
    → is_none (get_tool name (calls history before)) ≡ false
    → contains name names ≡ true
unfolding calls register unregister get_tool get put pop
names-cover name h = ground arith

load_from_store-calls_example :
    (s : Dict Value) × (((calls history before).store ≡ some s)
      × (((load_from_store plain tuple_of (some list_keys) s restarted).0
            ≡ returned (present (calls history before) names))
          × ((name : String)
              → get_tool name (load_from_store plain tuple_of (some list_keys) s restarted).1
                ≡ Option.map unbound (get_tool name (calls history before)))))
unfolding get
load_from_store-calls_example =
    load_from_store-calls plain plain-IsPython tuple_of tuple_of-IsTuple memory_storage-IsLawful []
      history names list_keys (λ name. refl) names-cover refl
