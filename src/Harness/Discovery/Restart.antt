-- ===== src/Harness/Discovery/Restart.antt =====
-- Rebuilding the tools of src/primal_ai/harness/discovery.py from the store after any history of
-- registrations.
use primal_core.Base.{
  ℕ, ◌+◌, ◌≡◌, refl, ap, subst, sym, ◌∙◌, Bool-cases, String, Bool, true, false, not, Option, none,
  some, List, [], ◌∷◌, map, length, keep, contains, Outcome, returned, is_none, str_eq, eq_iff,
  if◌then◌else◌, arith, Option-cases, inl, inr,
}
use mathlib.Core.Option
use primal_core.Base.Dict.{Dict, get, put, get-put}
use primal_core.Base.Value.{Value, null, Items}
use primal_core.Base.Python.{Python, IsPython}
use primal_core.Storage.{Storage, IsLawful}
use primal_core.Harness.Discovery.{
  ToolInfo, ToolRegistry, tool_key, register, unregister, get_tool, load_keys, load_from_store,
}
use primal_core.Harness.Discovery.Mirror.{
  IsTuple, unbound, tool_kept, Holds, Mirrors, register-Mirrors, unregister-Mirrors,
}

-- One call that changes the registry
pub data ToolCall (H : Type 0) : Type 0 where
  register_call : ToolInfo H → ToolCall H
  unregister_call : String → ToolCall H

if_same : {A : Type 0} (b : Bool) (x : A) → (if b then x else x) ≡ x
if_same true x = refl
if_same false x = refl

module _ {H : Type 0} where
  -- A tool that is read back, or the one that was there before
  abbrev reread : Option (ToolInfo H) → Option (ToolInfo H) → Option (ToolInfo H)
  reread none before = before
  reread (some tool) before = some (unbound tool)

  -- The tools of these names, put in turn
  unfoldable reloaded : Dict (ToolInfo H) → List String → Dict (ToolInfo H) → Dict (ToolInfo H)
  unfolding get put
  reloaded tools [] d = d
  reloaded tools (name ∷ names) d = elim (get name tools) [
    | none ↦ reloaded tools names d
    | some tool ↦ reloaded tools names (put tool.name (unbound tool) d)
  ]

  module _ (tools : Dict (ToolInfo H)) (j name : String) (names : List String)
      (d : Dict (ToolInfo H)) where
    skipped :
        get name tools ≡ none
        → (if contains j names then reread (get j tools) (get j d) else get j d)
          ≡ (if contains j (name ∷ names) then reread (get j tools) (get j d) else get j d)
    skipped e = elim (Bool-cases (str_eq name j)) [
      | inl q ↦
          rw (q, ap (λ k. get k tools) (sym ((eq_iff name j).0 q)) ∙ e)
            (if_same (contains j names) (get j d))
      | inr q ↦ rw q refl
    ]

    taken :
        (t : ToolInfo H)
        → get name tools ≡ some t
        → (if contains j names
            then reread (get j tools) (if str_eq name j then some (unbound t) else get j d)
            else if str_eq name j
            then some (unbound t)
            else get j d)
          ≡ (if contains j (name ∷ names) then reread (get j tools) (get j d) else get j d)
    taken t e = elim (Bool-cases (str_eq name j)) [
      | inl q ↦
          rw (q, ap (λ k. get k tools) (sym ((eq_iff name j).0 q)) ∙ e)
            (if_same (contains j names) (some (unbound t)))
      | inr q ↦ rw q refl
    ]

  get-reloaded :
      (tools : Dict (ToolInfo H))
      (named : (k : String) (t : ToolInfo H) → get k tools ≡ some t → t.name ≡ k) (j : String)
      (names : List String) (d : Dict (ToolInfo H))
      → get j (reloaded tools names d)
        ≡ (if contains j names then reread (get j tools) (get j d) else get j d)
  unfolding reloaded
  get-reloaded tools named j [] d = refl
  get-reloaded tools named j (name ∷ names) d = elim (Option-cases (get name tools)) [
    | inl e ↦ rw (e, reloaded, get-reloaded tools named j names d) (skipped tools j name names d e)
    | inr (t, e) ↦
        rw (e, reloaded, get-reloaded tools named j names (put t.name (unbound t) d))
          (rw
            (get-put t.name j (unbound t) d
              ∙ ap (λ k. if str_eq k j then some (unbound t) else get j d) (named name t e))
            (taken tools j name names d t e))
  ]

module _ {H : Type 0} {T : Storage} where
  -- `__init__`, with the store that later calls are given
  abbrev pub init : Option T.State → ToolRegistry H T
  init store = record { tools = []; store = store; published = [] }

  unfoldable pub calls : List (ToolCall H) → ToolRegistry H T → ToolRegistry H T
  unfolding register unregister
  calls [] r = r
  calls (register_call tool ∷ more) r = calls more (register tool r).1
  calls (unregister_call name ∷ more) r = calls more (unregister name r)

  calls-Mirrors :
      (L : IsLawful T) (more : List (ToolCall H)) (s : T.State) (r : ToolRegistry H T)
      → Mirrors s r
      → (s' : T.State) × Mirrors s' (calls more r)
  unfolding calls
  calls-Mirrors L [] s r m = (s, m)
  calls-Mirrors L (register_call tool ∷ more) s r m =
      let (s', m') = register-Mirrors L s r m tool in calls-Mirrors L more s' (register tool r).1 m'
  calls-Mirrors L (unregister_call name ∷ more) s r m =
      calls-Mirrors L more (T.delete (tool_key name) s) (unregister name r)
        (unregister-Mirrors L s r m name)

  -- How many of the names are registered
  abbrev pub present : ToolRegistry H T → List String → ℕ
  unfolding get_tool
  present r names = length (keep (λ name. not (is_none (get_tool name r))) names)

  named :
      (s : T.State) (r : ToolRegistry H T)
      → Mirrors s r
      → (k : String) (t : ToolInfo H) → get k r.tools ≡ some t
      → t.name ≡ k
  unfolding Mirrors Holds
  named s r m k t e = (subst (Holds (T.get (tool_key k) s) k) e (m.1 k)).0

  reread_all :
      (r : ToolRegistry H T) (name : String) (names : List String)
      → (is_none (get_tool name r) ≡ false → contains name names ≡ true)
      → (if contains name names then reread (get name r.tools) none else none)
        ≡ Option.map unbound (get_tool name r)
  unfolding get_tool
  reread_all r name names covers = elim (Option-cases (get name r.tools)) [
    | inl e ↦ rw e (if_same (contains name names) none)
    | inr (t, e) ↦ rw (e, covers (ap is_none e)) refl
  ]

  module _ (py : Python) (lawful : IsPython py) (tuple_of : Value → Outcome Items)
      (law : IsTuple tuple_of) where
    load_keys-reloaded :
        (s : T.State) (r : ToolRegistry H T) (m : Mirrors s r) (names : List String) (n : ℕ)
        (d : Dict (ToolInfo H))
        → load_keys T py tuple_of (map tool_key names) s n d
          ≡ (returned (n + present r names), reloaded r.tools names d)
    unfolding load_keys reloaded Mirrors Holds get_tool
    load_keys-reloaded s r m [] n d = ap (λ k. (returned k, d)) (omega arith)
    load_keys-reloaded s r m (name ∷ names) n d = elim (Option-cases (get name r.tools)) [
      | inl e ↦
          rw
            (
              subst (Holds (T.get (tool_key name) s) name) e (m.1 name),
              e,
              load_keys-reloaded s r m names n d,
            )
            (rw (e, reloaded) refl)
      | inr (t, e) ↦
          rw
            (
              (subst (Holds (T.get (tool_key name) s) name) e (m.1 name)).1,
              e,
              tool_kept tuple_of law py lawful t,
            )
            (rw (e, reloaded)
              (load_keys-reloaded s r m names (n + 1) (put t.name (unbound t) d)
                ∙ ap (λ k. (returned k, reloaded r.tools names (put t.name (unbound t) d)))
                    (omega arith)))
    ]

    -- After any calls of `register` and `unregister` that are given a lawful store which held no tool
    -- at first, the store rebuilds the registry: in a fresh registry, `load_from_store` finds, whatever
    -- the order of the keys that the store lists, each tool that is registered, all but its handler,
    -- and no other, and it returns how many of the listed names are registered. The keys it lists are
    -- those of `names`, which every registered name is among.
    pub load_from_store-calls :
        (L : IsLawful T) (start : T.State) (history : List (ToolCall H)) (names : List String)
        (list_keys : String → List String)
        → ((name : String) → T.get (tool_key name) start ≡ null)
        → ((name : String)
            → is_none (get_tool name (calls history (init (some start)))) ≡ false
            → contains name names ≡ true)
        → list_keys "harness:tool:" ≡ map tool_key names
        → (s : T.State) × (((calls history (init (some start))).store ≡ some s)
            × (((load_from_store py tuple_of (some list_keys) s (init none)).0
                  ≡ returned (present (calls history (init (some start))) names))
                × ((name : String)
                    → get_tool name (load_from_store py tuple_of (some list_keys) s (init none)).1
                      ≡ Option.map unbound (get_tool name (calls history (init (some start)))))))
    unfolding load_from_store get_tool Mirrors Holds
    load_from_store-calls L start history names list_keys bare covers listed =
        let r = calls history (init (some start)) in
        let (s, m) = calls-Mirrors L history start (init (some start)) (refl, bare) in
        let loaded =
          ap (λ ks. load_keys T py tuple_of ks s 0 []) listed
          ∙ load_keys-reloaded s r m names 0 [] in
        (
          s,
          (
            m.0,
            (
              ap (λ p. p.0) loaded ∙ ap returned (omega arith),
              λ name.
                  ap (λ p. get name p.1) loaded
                  ∙ get-reloaded r.tools (named s r m) name names []
                  ∙ reread_all r name names (covers name),
            ),
          ),
        )
