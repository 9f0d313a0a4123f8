-- ===== src/Continuity/Merging.antt =====
-- What `merge` of src/primal_ai/continuity/profile.py keeps for each key.
use primal_core.Base.{
  ◌≡◌, refl, sym, String, Option, none, some, [], ◌∷◌, if◌then◌else◌, str_eq, eq_iff, arith,
}
use primal_core.Base.Dict.{Dict, get, get-put, NodupKeys, put-NodupKeys}
use primal_core.Base.Int.{ℤ}
use primal_core.Continuity.Profile.{
  ProfileField, MergeStrategy, prefer_self, prefer_other, higher_confidence, UserProfile, get_field,
  preferred, merge_one, merge_fields, merge,
}

-- A field of one profile with that of the other, as the strategy says
abbrev pub combine : MergeStrategy → Option ProfileField → Option ProfileField → Option ProfileField
combine prefer none incoming = incoming
combine prefer (some existing) none = some existing
combine prefer (some existing) (some incoming) = some (preferred prefer existing incoming)

get-merge_one :
    (prefer : MergeStrategy) (k j : String) (f : ProfileField) (d : Dict ProfileField)
    → get j (merge_one prefer k f d)
      ≡ (if str_eq k j then combine prefer (get j d) (some f) else get j d)
unfolding merge_one
get-merge_one prefer_self k j f d = ground (arith, eq_iff k j, get-put k j f d)
get-merge_one prefer_other k j f d = ground (arith, eq_iff k j, get-put k j f d)
get-merge_one higher_confidence k j f d = ground (arith, eq_iff k j, get-put k j f d)

combine-none : (prefer : MergeStrategy) (x : Option ProfileField) → combine prefer x none ≡ x
combine-none prefer none = refl
combine-none prefer (some f) = refl

pub get-merge_fields :
    (prefer : MergeStrategy) (j : String) (other d : Dict ProfileField)
    → NodupKeys other
    → get j (merge_fields prefer other d) ≡ combine prefer (get j d) (get j other)
unfolding merge_fields get
get-merge_fields prefer j [] d u = sym (combine-none prefer (get j d))
get-merge_fields prefer j ((k, f) ∷ other) d (fresh, u) = ground (
  arith,
  eq_iff k j,
  get-merge_fields prefer j other (merge_one prefer k f d) u,
  get-merge_one prefer k j f d,
  combine-none prefer (combine prefer (get j d) (some f)),
)

-- Merging keeps, under each key, the field of the one profile that has it; where both have one, the
-- strategy decides: the own one, the other one, or the other one only if its confidence is larger.
pub get_field-merge :
    (prefer : MergeStrategy) (now : ℤ) (p other : UserProfile) (k : String)
    → NodupKeys other.fields
    → get_field k (merge prefer now p other) ≡ combine prefer (get_field k p) (get_field k other)
unfolding merge get_field
get_field-merge prefer now p other k u = get-merge_fields prefer k other.fields p.fields u

merge_one-NodupKeys :
    (prefer : MergeStrategy) (k : String) (f : ProfileField) (d : Dict ProfileField)
    → NodupKeys d
    → NodupKeys (merge_one prefer k f d)
unfolding merge_one
merge_one-NodupKeys prefer_self k f d u = ground (arith, put-NodupKeys k f d u)
merge_one-NodupKeys prefer_other k f d u = ground (arith, put-NodupKeys k f d u)
merge_one-NodupKeys higher_confidence k f d u = ground (arith, put-NodupKeys k f d u)

pub merge_fields-NodupKeys :
    (prefer : MergeStrategy) (other d : Dict ProfileField)
    → NodupKeys d
    → NodupKeys (merge_fields prefer other d)
unfolding merge_fields
merge_fields-NodupKeys prefer [] d u = u
merge_fields-NodupKeys prefer ((k, f) ∷ other) d u =
    merge_fields-NodupKeys prefer other (merge_one prefer k f d)
      (merge_one-NodupKeys prefer k f d u)
