-- ===== src/Base/Dict/Puts.antt =====
-- Writing entries into a dict one after the other, as the comprehensions and loops of the program do.
use mathlib.Core.List.{[], ◌∷◌, ◌++◌, append-nil, append_assoc}
use mathlib.Core.Logic.{◌⊎◌, inl, inr}
use mathlib.Core.Option.{none}
use mathlib.Core.Path.{◌≡◌, refl, ap, sym, ◌∙◌}
use native.Mathlib.Omega.{arith}
use text.Mathlib.TextEquality.{eq_iff}
use Prim.Native.String.{String}
use primal_core.Base.Tests.{str_eq, Bool-cases}
use primal_core.Base.Dict.{Dict, get, put, get-put, NodupKeys}

-- The entries of one dict written into another, in order
unfoldable pub put_each : {V : Type 0} → Dict V → Dict V → Dict V
put_each [] out = out
put_each ((k, v) ∷ d) out = put_each d (put k v out)

put-last :
    {V : Type 0} (k : String) (v : V) (d : Dict V) → get k d ≡ none → put k v d ≡ d ++ (k, v) ∷ []
unfolding get put
put-last k v [] h = refl
put-last k v ((j, w) ∷ d) h = ground (arith, put-last k v d)

get-nil : {V : Type 0} (j : String) → get {V = V} j [] ≡ none
unfolding get
get-nil j = refl

-- The keys of `d` are not in `out`.
abbrev Apart : {V : Type 0} → Dict V → Dict V → Type 0
Apart d out = (j : String) → (get j d ≡ none) ⊎ (get j out ≡ none)

Apart-put :
    {V : Type 0} (k : String) (v : V) (d out : Dict V)
    → get k d ≡ none
    → Apart ((k, v) ∷ d) out
    → Apart d (put k v out)
unfolding get
Apart-put k v d out new apart = λ j. elim (Bool-cases (str_eq k j)) [
  | inl same ↦ inl (ground (arith, eq_iff k j))
  | inr other ↦ elim (apart j) [
    | inl e ↦ inl (ground arith)
    | inr e ↦ inr (ground (arith, get-put k j v out))
  ]
]

pub put_each-append :
    {V : Type 0} (d out : Dict V) → NodupKeys d → Apart d out → put_each d out ≡ out ++ d
unfolding put_each get
put_each-append [] out u apart = sym (append-nil out)
put_each-append ((k, v) ∷ d) out (new, u) apart =
    let free : get k out ≡ none = elim (apart k) [
      | inl e ↦ ground (arith, eq_iff k k)
      | inr e ↦ e
    ] in
    put_each-append d (put k v out) u (Apart-put k v d out new apart)
    ∙ ap (λ x. x ++ d) (put-last k v out free)
    ∙ append_assoc out ((k, v) ∷ []) d

-- Into an empty dict they come as they are.
pub put_each_nil : {V : Type 0} (d : Dict V) → NodupKeys d → put_each d [] ≡ d
put_each_nil d u = put_each-append d [] u (λ j. inr (get-nil j))
