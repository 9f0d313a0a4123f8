-- ===== src/Base/Python/Kept.antt =====
-- What comes back from a dict when no default takes over, and where a default changes nothing.
use primal_core.Base.{
  ◌∙◌, eq_iff, ◌≡◌, refl, ap, sym, String, true, false, returned, str_eq, arith, Bool-cases, inl,
  inr,
}
use primal_core.Base.Int.{ℤ, pos, is_zero}
use primal_core.Base.Value.{Value, dict, str, float, Fields, field, end}
use primal_core.Base.Python.{Python, IsPython, either_or, to_float, to_dict_value}

zero_lem : (x : ℤ) → is_zero x ≡ true → x ≡ pos 0
zero_lem x h = ground arith

module _ (py : Python) where
  pub number_kept :
      (x : ℤ) (d : Value) → is_zero x ≡ false → to_float py (either_or (float x) d) ≡ returned x
  unfolding either_or to_float
  number_kept x d h = rw h

  pub number_lost :
      (x d : ℤ) → is_zero x ≡ true → to_float py (either_or (float x) (float d)) ≡ returned d
  unfolding either_or to_float
  number_lost x d h = rw h refl

  pub text_kept :
      (lawful : IsPython py) (s : String) (d : Value)
      → str_eq s "" ≡ false
      → py.str_of (either_or (str s) d) ≡ s
  unfolding either_or
  text_kept lawful s d h = rw h (lawful.str_of-str s)

  -- `or ""` changes nothing of a text.
  pub text_or_empty :
      (lawful : IsPython py) (s : String) → py.str_of (either_or (str s) (str "")) ≡ s
  unfolding either_or
  text_or_empty lawful s = elim (Bool-cases (str_eq s "")) [
    | inl e ↦ rw e (lawful.str_of-str "" ∙ sym ((eq_iff s "").0 e))
    | inr e ↦ rw e (lawful.str_of-str s)
  ]

  -- `or 0.0` changes nothing of a number.
  pub zero_kept : (x : ℤ) → to_float py (either_or (float x) (float (pos 0))) ≡ returned x
  unfolding either_or to_float
  zero_kept x = elim (Bool-cases (is_zero x)) [
    | inl e ↦ rw e (ap returned (sym (zero_lem x e)))
    | inr e ↦ rw e
  ]

  -- Nor does `or {}` of a dict.
  pub dict_kept : (fs : Fields) → to_dict_value py (either_or (dict fs) (dict end)) ≡ returned fs
  unfolding either_or to_dict_value
  dict_kept end = refl
  dict_kept (field k v fs) = refl
