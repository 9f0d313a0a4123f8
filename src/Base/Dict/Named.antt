-- ===== src/Base/Dict/Named.antt =====
-- Objects with names in dicts by their names, as `find` of Atlas and of Conductor builds them.
use Prim.Native.String.{String}
use mathlib.Core.Bool.{Bool, ◌&&◌}
use mathlib.Core.Option.{none, some}
use mathlib.Core.List.{List, [], ◌∷◌, filter_map, filter_map-cons-some}
use mathlib.Core.Path.{◌≡◌, refl, ap, ◌∙◌}
use mathlib.Core.Logic.{inl, inr}
use native.Mathlib.Omega.{arith}
use text.Mathlib.TextEquality.{eq_iff}
use primal_core.Base.Tests.{if◌then◌else◌, is_none, Option-cases}
use primal_core.Base.Lists.{keep}
use primal_core.Base.Dict.{Dict, get, put, NodupKeys}
use primal_core.Base.Dict.Puts.{put_each, put_each_nil}

module _ {P : Type 0} where
  -- `[a[n] for n in a if n in b]`
  unfoldable pub in_both : Dict P → Dict P → List P
  unfolding get
  in_both [] b = []
  in_both ((n, p) ∷ a) b = let rest = in_both a b in if is_none (get n b) then rest else p ∷ rest

  -- The keys of two dicts that are in both, in the order of the first
  unfoldable pub common_keys : Dict P → Dict P → List String
  unfolding get
  common_keys [] b = []
  common_keys ((n, p) ∷ a) b =
      let rest = common_keys a b in if is_none (get n b) then rest else n ∷ rest

  -- Every entry of `a` is found in `full`.
  abbrev FoundIn : Dict P → Dict P → Type 0
  FoundIn full [] = Unit
  FoundIn full ((n, p) ∷ a) = (get n full ≡ some p) × FoundIn full a

  FoundIn-behind :
      (n : String) (p : P) (full a : Dict P)
      → get n a ≡ none
      → FoundIn full a
      → FoundIn ((n, p) ∷ full) a
  unfolding get
  FoundIn-behind n p full [] new f = tt
  FoundIn-behind n p full ((m, q) ∷ a) new (e, f) =
      ground (arith, FoundIn-behind n p full a, eq_iff m n, eq_iff n m)

  FoundIn-self : (a : Dict P) → NodupKeys a → FoundIn a a
  unfolding get
  FoundIn-self [] u = tt
  FoundIn-self ((n, p) ∷ a) (new, u) =
      ground (arith, eq_iff n n, FoundIn-behind n p a a new (FoundIn-self a u))

  filter_map-common_keys :
      (full a b : Dict P)
      → FoundIn full a
      → filter_map (λ n. get n full) (common_keys a b) ≡ in_both a b
  unfolding common_keys in_both filter_map
  filter_map-common_keys full [] b f = refl
  filter_map-common_keys full ((n, p) ∷ a) b (e, f) = elim (Option-cases (get n b)) [
    | inl out ↦ rw out (filter_map-common_keys full a b f)
    | inr (q, found) ↦ rw found (
        filter_map-cons-some (λ m. get m full) n (common_keys a b) e
        ∙ ap (λ x. p ∷ x) (filter_map-common_keys full a b f))
  ]

  -- Looking the common keys up in the first dict gives its values at them.
  pub lookup-common_keys :
      (a b : Dict P) → NodupKeys a → filter_map (λ n. get n a) (common_keys a b) ≡ in_both a b
  lookup-common_keys a b u = filter_map-common_keys a a b (FoundIn-self a u)

module _ {P : Type 0} (name : P → String) where
  -- `{p.name: p for p in ps}`
  unfoldable pub by_name : List P → Dict P → Dict P
  unfolding put
  by_name [] out = out
  by_name (p ∷ ps) out = by_name ps (put (name p) p out)

  -- Each object under its name
  abbrev pub named : List P → Dict P
  named [] = []
  named (p ∷ ps) = (name p, p) ∷ named ps

  by_name-put_each : (ps : List P) (out : Dict P) → by_name ps out ≡ put_each (named ps) out
  unfolding by_name put_each
  by_name-put_each [] out = refl
  by_name-put_each (p ∷ ps) out = by_name-put_each ps (put (name p) p out)

  module _ (t : P → Bool) where
    get-keep-none :
        (n : String) (ps : List P) → get n (named ps) ≡ none → get n (named (keep t ps)) ≡ none
    unfolding get
    get-keep-none n [] h = h
    get-keep-none n (p ∷ ps) h = ground (arith, get-keep-none n ps)

    pub NodupKeys-keep : (ps : List P) → NodupKeys (named ps) → NodupKeys (named (keep t ps))
    NodupKeys-keep [] u = tt
    NodupKeys-keep (p ∷ ps) (new, u) =
        ground (arith, NodupKeys-keep ps u, get-keep-none (name p) ps new)

    pub by_name-keep :
        (ps : List P) → NodupKeys (named ps) → by_name (keep t ps) [] ≡ named (keep t ps)
    by_name-keep ps u =
        by_name-put_each (keep t ps) [] ∙ put_each_nil (named (keep t ps)) (NodupKeys-keep ps u)

  -- A provider of the list is kept exactly if it passes the test.
  module _ (c t : P → Bool) where
    -- The look-ups see the same providers behind an entry whose name does not come again.
    in_both_behind :
        (p : P) (ps : List P) (d : Dict P)
        → get (name p) (named ps) ≡ none
        → in_both (named ps) ((name p, p) ∷ d) ≡ in_both (named ps) d
    unfolding in_both get
    in_both_behind p [] d h = refl
    in_both_behind p (q ∷ ps) d h =
        ground (arith, in_both_behind p ps d, eq_iff (name q) (name p), eq_iff (name p) (name q))

    pub in_both-keep :
        (ps : List P)
        → NodupKeys (named ps)
        → in_both (named (keep c ps)) (named (keep t ps)) ≡ keep (λ p. c p && t p) ps
    unfolding in_both get
    in_both-keep [] u = refl
    in_both-keep (p ∷ ps) (new, u) = ground (
      arith,
      eq_iff (name p) (name p),
      in_both-keep ps u,
      get-keep-none t (name p) ps new,
      in_both_behind p (keep c ps) (named (keep t ps)) (get-keep-none c (name p) ps new),
    )
