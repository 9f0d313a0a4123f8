-- ===== src/Continuity/Facade.antt =====
-- src/primal_ai/continuity/_core.py: loading, saving, updating, deleting and learning profiles, over
-- any store. An autolearn extractor is the caller's code.
use primal_core.Base.{
  ℕ, ◌+◌, String, ◌<>◌, Bool, true, Option, none, some, List, [], ◌∷◌, ◌++◌, length, map, Outcome,
  returned, ◌>>=◌, str_eq, if◌then◌else◌,
}
use primal_core.Base.Dict.{Dict, put}
use primal_core.Base.Int.{ℤ}
use primal_core.Base.Value.{Value, null, dict, end}
use primal_core.Base.Python.{Python, with_methods}
use primal_core.Storage.{Storage}
use primal_core.Guardian.Policy.{and_then}
use primal_core.Continuity.Profile.{
  ProfileField, UserProfile, higher_confidence, set, merge, to_dict, from_dict,
}

pub data ProfileEvent : Type 0 where
  profile_updated : String → String → String → ℤ → ProfileEvent
  batch_learned : String → String → ℕ → ProfileEvent
  profile_deleted : String → ProfileEvent

-- The store that a call is given, the events on the bus, `_warned_no_store` and the warnings logged
pub record Memory (T : Storage) : Type 0 where
  pub store : Option T.State
  pub published : List ProfileEvent
  pub warned_no_store : Bool
  pub warnings : ℕ

pub record Autolearn : Type 0 where
  pub name : String
  pub extract : String → UserProfile → Outcome (List ProfileField)

abbrev pub profile_key : String → String
profile_key user_id = "continuity:profile:" <> user_id

-- The profile of a user that has none
abbrev pub new_profile : String → ℤ → UserProfile
new_profile user_id now = record {
  user_id = user_id;
  fields = [];
  metadata = end;
  created_at = now;
  updated_at = now;
}

-- What `load` makes of what the store gives
abbrev pub stored_profile : Python → ℤ → String → Value → Outcome UserProfile
unfolding from_dict
stored_profile py now user_id null = returned (new_profile user_id now)
stored_profile py now user_id payload = with_methods payload >>= from_dict py now

-- `{f.key: f for f in extracted}`
unfoldable pub by_key : List ProfileField → Dict ProfileField → Dict ProfileField
unfolding put
by_key [] d = d
by_key (f ∷ fs) d = by_key fs (put f.key f d)

unfoldable pub merge_extracted_into : ℤ → UserProfile → List ProfileField → UserProfile
unfolding merge by_key
merge_extracted_into now current extracted = merge higher_confidence now current (record {
  user_id = current.user_id;
  fields = by_key extracted [];
  metadata = end;
  created_at = current.created_at;
  updated_at = now;
})

-- The profile is saved under the id that is given, whatever its own.
abbrev pub renamed : String → UserProfile → UserProfile
renamed user_id p = if str_eq p.user_id user_id then p else record p { user_id = user_id }

-- `load`, given the store
abbrev pub load_in : (T : Storage) → Python → ℤ → String → Option T.State → Outcome UserProfile
unfolding from_dict
load_in T py now user_id none = returned (new_profile user_id now)
load_in T py now user_id (some s) = stored_profile py now user_id (T.get (profile_key user_id) s)

module _ {T : Storage} where
  unfoldable pub warn_no_store_once : Memory T → Memory T
  warn_no_store_once m =
      if m.warned_no_store
      then m
      else record m { warned_no_store = true; warnings = m.warnings + 1 }

  abbrev pub publish : ProfileEvent → Memory T → Memory T
  publish e m = record m { published = m.published ++ (e ∷ []) }

  unfoldable pub load : Python → ℤ → String → Memory T → Outcome UserProfile
  unfolding from_dict
  load py now user_id m = load_in T py now user_id m.store

  abbrev pub save_in : String → UserProfile → Memory T → Option T.State → Memory T
  unfolding warn_no_store_once to_dict
  save_in user_id p m none = warn_no_store_once m
  save_in user_id p m (some s) = record m {
    store = some (T.put (profile_key user_id) (dict (to_dict (renamed user_id p))) s);
  }

  unfoldable pub save : String → UserProfile → Memory T → Memory T
  unfolding warn_no_store_once to_dict
  save user_id p m = save_in user_id p m m.store

  unfoldable pub update :
      Python → ℤ → String → String → Value → String → ℤ → Memory T → Outcome UserProfile × Memory T
  unfolding load save set
  update py now user_id k v source confidence m =
      and_then (load py now user_id m, m)
        λ p m'.
          let p' = set k v source confidence now p in
          (returned p', publish (profile_updated user_id k source confidence) (save user_id p' m'))

  unfoldable pub delete : String → Memory T → Memory T
  delete user_id m = elim m.store [
    | none ↦ m
    | some s ↦
        publish (profile_deleted user_id)
          (record m { store = some (T.delete (profile_key user_id) s) })
  ]

  unfoldable pub autolearn :
      Python → ℤ → String → String → Autolearn → Memory T → Outcome UserProfile × Memory T
  unfolding load save merge_extracted_into
  autolearn py now user_id text learner m =
      and_then (load py now user_id m, m)
        λ current m1.
          and_then (learner.extract text current, m1)
            λ extracted m2.
              let merged = merge_extracted_into now current extracted in
              (
                returned merged,
                publish (batch_learned user_id learner.name (length extracted))
                    (save user_id merged m2),
              )

-- `list_users`: `list_keys` is the store's method, if it has one, and `drop_prefix` the slice
-- `k[len(_PROFILE_KEY_PREFIX):]`.
unfoldable pub list_users :
    (String → String) → Option (String → Outcome (List String)) → Outcome (List String)
list_users drop_prefix none = returned []
list_users drop_prefix (some list_keys) =
    list_keys "continuity:profile:" >>= λ ks. returned (map drop_prefix ks)
