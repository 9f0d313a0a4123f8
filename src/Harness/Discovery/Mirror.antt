-- ===== src/Harness/Discovery/Mirror.antt =====
-- What the store of src/primal_ai/harness/discovery.py holds of the tools that are registered.
use primal_core.Base.{
  ◌≡◌, refl, ap, String, Option, none, some, returned, ◌>>=◌, str_eq, is_none, eq_iff, Bool-cases,
  inl, inr, if◌then◌else◌,
}
use primal_core.Base.Dict.{get, get-put, get-pop}
use primal_core.Base.Value.{Value, null, list, tuple, dict, Items, nil, cons}
use primal_core.Base.Python.{Python, IsPython, either_or}
use primal_core.Base.Python.Kept.{text_or_empty, dict_kept}
use primal_core.Base.{Outcome}
use primal_core.Base.Prefixed.{str_eq-append}
use primal_core.Storage.{Storage, IsLawful}
use primal_core.Harness.Discovery.{
  ToolInfo, ToolRegistry, tool_key, to_dict, from_dict, register, unregister, added, stored,
}

-- `tuple` of a list or a tuple has its items.
pub record IsTuple (tuple_of : Value → Outcome Items) : Type 0 where
  pub of_list : (xs : Items) → tuple_of (list xs) ≡ returned xs
  pub of_tuple : (xs : Items) → tuple_of (tuple xs) ≡ returned xs

-- What is stored of a tool: all but its handler
abbrev pub unbound : {H : Type 0} → ToolInfo H → ToolInfo H
unbound tool = record tool { handler = none }

module _ (tuple_of : Value → Outcome Items) (law : IsTuple tuple_of) where
  tags_kept : (xs : Items) → tuple_of (either_or (list xs) (tuple nil)) ≡ returned xs
  unfolding either_or
  tags_kept nil = law.of_tuple nil
  tags_kept (cons x xs) = law.of_list (cons x xs)

  pub tool_kept :
      {H : Type 0} (py : Python) (lawful : IsPython py) (tool : ToolInfo H)
      → from_dict py tuple_of (to_dict tool) ≡ returned (unbound tool)
  unfolding from_dict to_dict
  tool_kept py lawful tool =
      rw
        (
          tags_kept tool.tags,
          ◌>>=◌,
          dict_kept py tool.metadata,
          ◌>>=◌,
          lawful.str_of-str tool.name,
          text_or_empty py lawful tool.description,
        )
        refl

key_apart : (a b : String) → str_eq (tool_key a) (tool_key b) ≡ str_eq a b
key_apart a b = str_eq-append "harness:tool:" a b

module _ {H : Type 0} where
  -- What the store reads under the key of a name, and the tool of that name, if there is one
  unfoldable pub Holds : Value → String → Option (ToolInfo H) → Type 0
  unfolding to_dict
  Holds v name none = v ≡ null
  Holds v name (some tool) = (tool.name ≡ name) × (v ≡ dict (to_dict tool))

  module _ (v : Value) (o : Option (ToolInfo H)) (name : String) (h : Holds v name o) where
    put-Holds :
        (tool : ToolInfo H)
        → Holds
            (if str_eq tool.name name then dict (to_dict tool) else v)
            name
            (if str_eq tool.name name then some tool else o)
    unfolding Holds
    put-Holds tool = elim (Bool-cases (str_eq tool.name name)) [
      | inl e ↦ rw e ((eq_iff tool.name name).0 e, refl)
      | inr e ↦ rw e h
    ]

    delete-Holds :
        (gone : String)
        → Holds (if str_eq gone name then null else v) name (if str_eq gone name then none else o)
    unfolding Holds
    delete-Holds gone = elim (Bool-cases (str_eq gone name)) [ inl e ↦ rw e refl | inr e ↦ rw e h ]

module _ {H : Type 0} {T : Storage} where
  -- The store has what is registered, each tool under the key of its name, and nothing under the key
  -- of a name that is not registered.
  unfoldable pub Mirrors : T.State → ToolRegistry H T → Type 0
  unfolding get
  Mirrors s r =
      (r.store ≡ some s)
      × ((name : String) → Holds (T.get (tool_key name) s) name (get name r.tools))

  module _ (L : IsLawful T) (s : T.State) (r : ToolRegistry H T) (m : Mirrors s r) where
    added-Mirrors :
        (tool : ToolInfo H)
        → Mirrors (T.put (tool_key tool.name) (dict (to_dict tool)) s) (added tool r)
    unfolding Mirrors added
    added-Mirrors tool = (
      ap (stored T (T.put (tool_key tool.name) (dict (to_dict tool)))) m.0,
      λ name.
          rw
            (
              L.get-put (tool_key tool.name) (tool_key name) (dict (to_dict tool)) s,
              key_apart tool.name name,
              get-put tool.name name tool r.tools,
            )
            (put-Holds (T.get (tool_key name) s) (get name r.tools) name (m.1 name) tool),
    )

    pub unregister-Mirrors :
        (gone : String) → Mirrors (T.delete (tool_key gone) s) (unregister gone r)
    unfolding Mirrors unregister
    unregister-Mirrors gone = (
      ap (stored T (T.delete (tool_key gone))) m.0,
      λ name.
          rw
            (
              L.get-delete (tool_key gone) (tool_key name) s,
              key_apart gone name,
              get-pop gone name r.tools,
            )
            (delete-Holds (T.get (tool_key name) s) (get name r.tools) name (m.1 name) gone),
    )

    pub register-Mirrors : (tool : ToolInfo H) → (s' : T.State) × Mirrors s' (register tool r).1
    unfolding register
    register-Mirrors tool = elim (Bool-cases (is_none (get tool.name r.tools))) [
      | inl e ↦ rw e (T.put (tool_key tool.name) (dict (to_dict tool)) s, added-Mirrors tool)
      | inr e ↦ rw e (s, m)
    ]
