-- ===== src/Harness/Discovery.antt =====
-- src/primal_ai/harness/discovery.py. `occurs a b` is `a in b` for texts, and `tuple_of` is the
-- `tuple` of a value. A handler has any type `H`.
pub mod Mirror
pub mod Restart
mod Tests
use primal_core.Base.{
  ℕ, ◌+◌, ◌≡◌, refl, ap, ◌∙◌, String, ◌<>◌, Bool, true, false, not, Option, none, some, List, [],
  ◌∷◌, ◌++◌, keep, Outcome, returned, raised, exception, ◌>>=◌, is_none, str_eq, if◌then◌else◌,
  ◌&&◌, ◌||◌, arith,
}
use primal_core.Base.Dict.{Dict, get, put, pop, values}
use primal_core.Base.Value.{
  Value, null, str, list, tuple, dict, Items, nil, cons, Fields, field, end,
}
use primal_core.Base.Python.{Python, either_or, value_at, item_at, as_fields, to_dict_value}
use primal_core.Storage.{Storage}

pub record ToolInfo (H : Type 0) : Type 0 where
  pub name : String
  pub description : String
  pub tags : Items
  pub metadata : Fields
  pub handler : Option H

pub data ToolEvent : Type 0 where
  tool_registered tool_unregistered : String → ToolEvent

-- `tag in tool.tags`
abbrev pub has_tag : String → Items → Bool
has_tag tag nil = false
has_tag tag (cons (str s) xs) = str_eq s tag || has_tag tag xs
has_tag tag (cons v xs) = has_tag tag xs

abbrev pub tool_key : String → String
tool_key name = "harness:tool:" <> name

module _ {H : Type 0} where
  unfoldable pub to_dict : ToolInfo H → Fields
  to_dict tool = field "name" (str tool.name) (
      field "description" (str tool.description)
        (field "tags" (list tool.tags) (field "metadata" (dict tool.metadata) end)))

  unfoldable pub from_dict : Python → (Value → Outcome Items) → Fields → Outcome (ToolInfo H)
  unfolding value_at item_at either_or to_dict_value
  from_dict py tuple_of payload = do
    name ← item_at "name" payload
    tags ← tuple_of (either_or (value_at "tags" payload) (tuple nil))
    metadata ← to_dict_value py (either_or (value_at "metadata" payload) (dict end))
    returned (record {
      name = py.str_of name;
      description = py.str_of (either_or (value_at "description" payload) (str ""));
      tags = tags;
      metadata = metadata;
      handler = none;
    })

module _ {H : Type 0} where
  -- The two filters on one tool; an empty text matches every tool.
  abbrev pub matches :
      (String → String)
      → (String → String → Bool)
      → Option String
      → Option String
      → ToolInfo H
      → Bool
  matches lower occurs tag text tool =
      (elim tag [ none ↦ true | some t ↦ has_tag t tool.tags ]) && (elim text [
        | none ↦ true
        | some t ↦
            str_eq t "" || occurs (lower t) (lower tool.name <> (" " <> lower tool.description))
      ])

  values-put :
      (k : String) (tool : ToolInfo H) (d : Dict (ToolInfo H))
      → get k d ≡ none
      → values (put k tool d) ≡ values d ++ (tool ∷ [])
  unfolding get put values
  values-put k tool [] h = refl
  values-put k tool ((j, x) ∷ d) h = ground (arith, values-put k tool d)

  keep_append :
      (p : ToolInfo H → Bool) (xs : List (ToolInfo H)) (x : ToolInfo H)
      → keep p (xs ++ (x ∷ [])) ≡ keep p xs ++ (if p x then x ∷ [] else [])
  keep_append p [] x = ground arith
  keep_append p (y ∷ ys) x = ground (arith, keep_append p ys x)

-- The tools, the store that is passed along, and the events on the bus
pub record ToolRegistry (H : Type 0) (T : Storage) : Type 0 where
  pub tools : Dict (ToolInfo H)
  pub store : Option T.State
  pub published : List ToolEvent

-- A write to the store, if there is one
abbrev pub stored : (T : Storage) → (T.State → T.State) → Option T.State → Option T.State
stored T f none = none
stored T f (some s) = some (f s)

-- The loop of `load_from_store`; a key that holds nothing is passed over. What was loaded before an
-- exception stays.
unfoldable pub load_keys :
    {H : Type 0} (T : Storage)
    → Python
    → (Value → Outcome Items)
    → List String
    → T.State
    → ℕ
    → Dict (ToolInfo H)
    → Outcome ℕ × Dict (ToolInfo H)
unfolding put from_dict
load_keys T py tuple_of [] s loaded tools = (returned loaded, tools)
load_keys T py tuple_of (k ∷ ks) s loaded tools = elim (T.get k s) [
  | null ↦ load_keys T py tuple_of ks s loaded tools
  | payload ↦ elim (as_fields payload >>= from_dict py tuple_of) [
    | raised e ↦ (raised e, tools)
    | returned info ↦ load_keys T py tuple_of ks s (loaded + 1) (put info.name info tools)
  ]
]

module _ {H : Type 0} {T : Storage} where
  -- The registry with a tool of a new name
  abbrev pub added : ToolInfo H → ToolRegistry H T → ToolRegistry H T
  unfolding put to_dict
  added tool r = record r {
    tools = put tool.name tool r.tools;
    store = stored T (T.put (tool_key tool.name) (dict (to_dict tool))) r.store;
    published = r.published ++ (tool_registered tool.name ∷ []);
  }

  unfoldable pub register : ToolInfo H → ToolRegistry H T → Outcome (Unit {0}) × ToolRegistry H T
  unfolding get put to_dict
  register tool r =
      if is_none (get tool.name r.tools)
      then (returned tt, added tool r)
      else (raised (exception "ValueError" tool.name), r)

  unfoldable pub unregister : String → ToolRegistry H T → ToolRegistry H T
  unfolding get pop
  unregister name r =
      let had = not (is_none (get name r.tools)) in
      record r {
        tools = pop name r.tools;
        store = stored T (T.delete (tool_key name)) r.store;
        published = if had then r.published ++ (tool_unregistered name ∷ []) else r.published;
      }

  unfoldable pub get_tool : String → ToolRegistry H T → Option (ToolInfo H)
  unfolding get
  get_tool name r = get name r.tools

  unfoldable pub list_all : ToolRegistry H T → List (ToolInfo H)
  unfolding values
  list_all r = values r.tools

  unfoldable pub find :
      (String → String)
      → (String → String → Bool)
      → Option String
      → Option String
      → ToolRegistry H T
      → List (ToolInfo H)
  unfolding values
  find lower occurs tag text r = keep (matches lower occurs tag text) (values r.tools)

  -- `list_keys` is the store's method, if it has one.
  unfoldable pub load_from_store :
      Python
      → (Value → Outcome Items)
      → Option (String → List String)
      → T.State
      → ToolRegistry H T
      → Outcome ℕ × ToolRegistry H T
  unfolding load_keys
  load_from_store py tuple_of none s r = (returned 0, r)
  load_from_store py tuple_of (some list_keys) s r =
      let (n, tools) = load_keys T py tuple_of (list_keys "harness:tool:") s 0 r.tools in
      (n, record r { tools = tools })

  -- A tool of a new name is found after it is registered, behind the tools that were found before,
  -- exactly when it passes the filters.
  pub find-register :
      (lower : String → String) (occurs : String → String → Bool) (tag text : Option String)
      (tool : ToolInfo H) (r : ToolRegistry H T)
      → get_tool tool.name r ≡ none
      → find lower occurs tag text (register tool r).1
        ≡ find lower occurs tag text r
          ++ (if matches lower occurs tag text tool then tool ∷ [] else [])
  unfolding find register get_tool
  find-register lower occurs tag text tool r h =
      let chosen : Bool → Outcome (Unit {0}) × ToolRegistry H T = λ b.
        if b then (returned tt, added tool r) else (raised (exception "ValueError" tool.name), r) in
      ap (λ b. keep (matches lower occurs tag text) (values (chosen b).1.tools)) (ap is_none h)
      ∙ ap (keep (matches lower occurs tag text)) (values-put tool.name tool r.tools h)
      ∙ keep_append (matches lower occurs tag text) (values r.tools) tool
