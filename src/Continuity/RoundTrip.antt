-- ===== src/Continuity/RoundTrip.antt =====
-- A profile of src/primal_ai/continuity saved in a store and loaded again.
use primal_core.Base.{
  ◌≡◌, refl, ap, sym, subst, ◌∙◌, String, false, some, [], ◌∷◌, returned, ◌>>=◌, str_eq, eq_iff,
  Bool-cases, inl, inr,
}
use primal_core.Base.Dict.{Dict}
use primal_core.Base.Int.{ℤ, pos, is_zero}
use primal_core.Base.Value.{dict, str, float, end}
use primal_core.Base.Python.{Python, IsPython, either_or, with_methods}
use primal_core.Base.Python.Kept.{number_kept, text_kept, zero_kept, dict_kept}
use primal_core.Storage.{Storage, IsLawful}
use primal_core.Continuity.Profile.{
  ProfileField, UserProfile, field_to_dict, field_from_dict, field_dicts, fields_from, to_dict,
  from_dict,
}
use primal_core.Continuity.Facade.{Memory, profile_key, renamed, save_in, load, save}

-- A field that `from_dict` gives back as it is: no part of it is falsy where a default takes over.
abbrev pub IsStorable : ProfileField → Type 0
IsStorable f =
    (is_zero f.confidence ≡ false) × (str_eq f.source "" ≡ false) × (is_zero f.updated_at ≡ false)

abbrev pub AllStorable : Dict ProfileField → Type 0
AllStorable [] = Unit
AllStorable ((k, f) ∷ fs) = IsStorable f × AllStorable fs

renamed_lem :
    (user_id : String) (p : UserProfile) → renamed user_id p ≡ record p { user_id = user_id }
renamed_lem user_id p = elim (Bool-cases (str_eq p.user_id user_id)) [
  | inl e ↦ rw e (ap (λ u. record p { user_id = u }) ((eq_iff p.user_id user_id).0 e))
  | inr e ↦ rw e
]

renamed_fields :
    (user_id : String) (p : UserProfile)
    → AllStorable p.fields
    → AllStorable (renamed user_id p).fields
renamed_fields user_id p h = subst (λ q. AllStorable q.fields) (sym (renamed_lem user_id p)) h

module _ (py : Python) (lawful : IsPython py) (now : ℤ) where
  field_kept :
      (f : ProfileField) → IsStorable f → field_from_dict py now (field_to_dict f) ≡ returned f
  unfolding field_from_dict field_to_dict
  field_kept f (h, k, l) =
      rw
        (
          number_kept py f.confidence (float (pos 1000000)) h,
          ◌>>=◌,
          number_kept py f.updated_at (float now) l,
          lawful.str_of-str f.key,
          text_kept py lawful f.source (str "user") k,
        )
        refl

  fields_kept :
      (fs : Dict ProfileField) → AllStorable fs → fields_from py now (field_dicts fs) ≡ returned fs
  unfolding fields_from field_dicts
  fields_kept [] h = refl
  fields_kept ((k, f) ∷ fs) (h, hs) = rw (field_kept f h, ◌>>=◌, fields_kept fs hs) refl

  raw_kept :
      (fs : Dict ProfileField)
      → with_methods (either_or (dict (field_dicts fs)) (dict end)) ≡ returned (field_dicts fs)
  unfolding either_or field_dicts
  raw_kept [] = refl
  raw_kept ((k, f) ∷ fs) = refl

  pub from_dict-to_dict :
      (p : UserProfile) → AllStorable p.fields → from_dict py now (to_dict p) ≡ returned p
  unfolding from_dict to_dict
  from_dict-to_dict p h =
      rw
        (
          raw_kept p.fields,
          ◌>>=◌,
          fields_kept p.fields h,
          ◌>>=◌,
          dict_kept py p.metadata,
          ◌>>=◌,
          zero_kept py p.created_at,
          ◌>>=◌,
          zero_kept py p.updated_at,
          lawful.str_of-str p.user_id,
        )
        refl

  -- A profile whose fields have a confidence and a time that are not 0.0 and a source that is not
  -- empty is loaded from a lawful store as it was saved, under the id that it was saved for.
  pub load-save_profile :
      (T : Storage) (L : IsLawful T) (user_id : String) (p : UserProfile) (m : Memory T)
      (s : T.State)
      → m.store ≡ some s
      → AllStorable p.fields
      → load py now user_id (save user_id p m) ≡ returned (record p { user_id = user_id })
  unfolding load save
  load-save_profile T L user_id p m s e h =
      ap (λ o. load py now user_id (save_in user_id p m o)) e
      ∙ rw
          (
            L.get-put (profile_key user_id) (profile_key user_id)
                (dict (to_dict (renamed user_id p))) s,
            (eq_iff (profile_key user_id) (profile_key user_id)).1 refl,
          )
          (from_dict-to_dict (renamed user_id p) (renamed_fields user_id p h))
      ∙ ap returned (renamed_lem user_id p)
