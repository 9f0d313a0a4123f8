-- ===== src/Base/Dict/Owned.antt =====
-- Registries that keep each object under its own name, as those of Atlas and of Conductor do.
use Prim.Native.String.{String}
use mathlib.Core.List.{List, [], ◌∷◌, map}
use mathlib.Core.Path.{◌≡◌, refl, sym, subst}
use mathlib.Core.Logic.{inl, inr}
use mathlib.Core.Bool.{Bool, true, false}
use mathlib.Core.Option.{some}
use native.Mathlib.Omega.{arith}
use text.Mathlib.TextEquality.{eq_iff}
use primal_core.Base.Tests.{str_eq, is_none, Bool-cases}
use primal_core.Base.Lists.{All, contains, keep}
use primal_core.Base.Dict.{Dict, get, put, pop, values, NodupKeys, put-NodupKeys, pop-NodupKeys}
use primal_core.Base.Dict.Named.{named}

-- What holds of all values holds of one that is found.
pub All-get :
    {A : Type 0} (Q : A → Type 0) (k : String) (x : A) (d : Dict A)
    → All Q (values d)
    → get k d ≡ some x
    → Q x
unfolding get values
All-get Q k x [] hs e = cc e
All-get Q k x ((n, y) ∷ d) (h, hs) e = elim (Bool-cases (str_eq n k)) [
  | inl q ↦ subst Q (cc (rw q at e)) h
  | inr q ↦ All-get Q k x d hs (rw q at e)
]

module _ {P : Type 0} (name : P → String) where
  abbrev pub UnderName : Dict P → Type 0
  UnderName d = All (λ e. name e.1 ≡ e.0) d

  -- Every name is there once, with an object of that name.
  abbrev pub IsOwned : Dict P → Type 0
  IsOwned d = NodupKeys d × UnderName d

  put-UnderName : (p : P) (d : Dict P) → UnderName d → UnderName (put (name p) p d)
  unfolding put
  put-UnderName p [] h = (refl, tt)
  put-UnderName p ((n, q) ∷ d) (h, hs) = elim (Bool-cases (str_eq n (name p))) [
    | inl e ↦ rw e (sym ((eq_iff n (name p)).0 e), hs)
    | inr e ↦ rw e (h, put-UnderName p d hs)
  ]

  pop-UnderName : (k : String) (d : Dict P) → UnderName d → UnderName (pop k d)
  unfolding pop
  pop-UnderName k [] h = tt
  pop-UnderName k ((n, q) ∷ d) (h, hs) = elim (Bool-cases (str_eq n k)) [
    | inl e ↦ rw e (pop-UnderName k d hs)
    | inr e ↦ rw e (h, pop-UnderName k d hs)
  ]

  pub put-IsOwned : (p : P) (d : Dict P) → IsOwned d → IsOwned (put (name p) p d)
  put-IsOwned p d (u, h) = (put-NodupKeys (name p) p d u, put-UnderName p d h)

  pub pop-IsOwned : (k : String) (d : Dict P) → IsOwned d → IsOwned (pop k d)
  pop-IsOwned k d (u, h) = (pop-NodupKeys k d u, pop-UnderName k d h)

  named-values : (d : Dict P) → UnderName d → named name (values d) ≡ d
  unfolding values
  named-values [] h = refl
  named-values ((n, q) ∷ d) (h, hs) = rw (h, named-values d hs) refl

  -- The objects then have different names.
  pub IsOwned-NodupKeys : (d : Dict P) → IsOwned d → NodupKeys (named name (values d))
  IsOwned-NodupKeys d (u, h) = subst NodupKeys (sym (named-values d h)) u

  pub get-UnderName :
      (k : String) (p : P) (d : Dict P) → UnderName d → get k d ≡ some p → name p ≡ k
  unfolding get
  get-UnderName k p [] h e = cc e
  get-UnderName k p ((n, q) ∷ d) (h, hs) e = ground (arith, get-UnderName k p d hs, eq_iff n k)

  -- The name of an object that is there is a key.
  pub contains-values :
      (k : String) (d : Dict P)
      → UnderName d
      → contains k (map name (values d)) ≡ true
      → is_none (get k d) ≡ false
  unfolding get values
  contains-values k [] h m = cc m
  contains-values k ((n, q) ∷ d) (h, hs) m = ground (arith, contains-values k d hs)

  pub contains-keep :
      (k : String) (t : P → Bool) (ps : List P)
      → contains k (map name (keep t ps)) ≡ true
      → contains k (map name ps) ≡ true
  contains-keep k t [] m = m
  contains-keep k t (p ∷ ps) m = ground (arith, contains-keep k t ps)
