-- ===== src/Atlas/Cascade/Attempts.antt =====
-- The attempts that `Cascade.run` of atlas/cascade.py makes, and what its result says of them.

use primal_core.Base.{
  String, ◌≡◌, ◌≢◌, ◌↔◌, refl, true, Option, none, some, List, [], ◌∷◌, map, arith, Outcome,
  returned, is_none, not, Outcome-cases, Option-cases, subst, inl, inr, ◌⊎◌, all, any,
}
use primal_core.Base.Dict.{Dict}
use primal_core.Atlas.Provider.{Context, success, all_unhealthy}
use primal_core.Atlas.State.{Atlas, Attempt, CascadeResult, publish, cascade_started}
use primal_core.Atlas.Cascade.Answers.{try_provider-name, IsAnswer, try_each-IsAnswer}
use primal_core.Atlas.Cascade.{
  Cascade, is_success, is_all_unhealthy, try_provider, try_each, winner, final_status, result_of,
  run,
}

-- The attempts are made on the names in order, one each, up to the first success; without a
-- success every name has been tried.
abbrev pub Tried : {V : Type 0} → List String → List (Attempt V) → Type 0
Tried ns [] = ns ≡ []
Tried [] (t ∷ ts) = ⊥
Tried (n ∷ ns) (t ∷ ts) =
    (t.name ≡ n) × (((t.status ≡ success) × (ts ≡ [])) ⊎ ((t.status ≢ success) × Tried ns ts))

module _ {V B : Type 0} where
  try_each-Tried :
      (c : Cascade) (task : String) (kwargs : Dict V) (ctx : Context B) (ns : List String)
      (a : Atlas V B) (ts : List (Attempt V))
      → (try_each c task kwargs ctx ns a).0 ≡ returned ts
      → Tried ns ts
  unfolding try_each
  try_each-Tried c task kwargs ctx [] a ts e = ground arith
  try_each-Tried c task kwargs ctx (n ∷ ns) a [] e = ground arith
  try_each-Tried c task kwargs ctx (n ∷ ns) a (t ∷ ts) e = ground (
    arith,
    try_provider-name c n task kwargs ctx a {t = t},
    try_each-Tried c task kwargs ctx ns (try_provider c n task kwargs ctx a).1 ts,
  )

module _ {V : Type 0} where
  winner-any :
      (ts : List (Attempt V)) → is_none (winner ts) ≡ not (any (λ t. is_success t.status) ts)
  unfolding winner
  winner-any [] = refl
  winner-any (t ∷ ts) = ground (arith, winner-any ts)

  no_winner :
      (ts : List (Attempt V)) → all (λ t. is_all_unhealthy t.status) ts ≡ true → winner ts ≡ none
  unfolding winner
  no_winner [] e = refl
  no_winner (t ∷ ts) e = ground (arith, no_winner ts)

  pub final_status-success :
      (ts : List (Attempt V))
      → (final_status ts ≡ success) ↔ (any (λ t. is_success t.status) ts ≡ true)
  unfolding final_status
  final_status-success [] = grind arith
  final_status-success (t ∷ ts) = grind (arith, winner-any (t ∷ ts))

  pub final_status-all_unhealthy :
      (ts : List (Attempt V))
      → (final_status ts ≡ all_unhealthy)
        ↔ ((ts ≢ []) × (all (λ t. is_all_unhealthy t.status) ts ≡ true))
  unfolding final_status
  final_status-all_unhealthy [] = grind arith
  final_status-all_unhealthy (t ∷ ts) = grind (arith, no_winner (t ∷ ts))

  -- A success is the last attempt, and the winner.
  abbrev pub last : List (Attempt V) → Option (Attempt V)
  last [] = none
  last (t ∷ []) = some t
  last (t ∷ u ∷ ts) = last (u ∷ ts)

  winner-last :
      (ns : List String) (ts : List (Attempt V)) (t : Attempt V)
      → Tried ns ts
      → winner ts ≡ some t
      → last ts ≡ some t
  unfolding winner
  winner-last ns [] t tried e = ground arith
  winner-last [] (u ∷ ts) t tried e = absurd tried
  winner-last (n ∷ ns) (u ∷ []) t tried e = ground arith
  winner-last (n ∷ ns) (u ∷ v ∷ ts) t tried e = ground (arith, winner-last ns (v ∷ ts) t)

-- What a result says of a run on the providers `ns`: `made` is what the loop returned, and `IsGiven`
-- tells the answers of the providers.
abbrev pub Tells :
    {V : Type 0}
    → List String
    → Outcome (List (Attempt V))
    → (Attempt V → Type 0)
    → CascadeResult V
    → Type 0
Tells {V} ns made IsGiven res =
    (ts : List (Attempt V)) × (made ≡ returned ts)
    × Tried ns ts
    × (res.attempts ≡ map (λ t. (t.name, t.status, t.reason)) ts)
    × ((res.status ≡ success) ↔ (any (λ t. is_success t.status) ts ≡ true))
    × ((res.status ≡ all_unhealthy)
        ↔ ((ts ≢ []) × (all (λ t. is_all_unhealthy t.status) ts ≡ true)))
    × (res.status ≡ success
        → (t : Attempt V) × (last ts ≡ some t)
          × (res.chosen ≡ some t.name)
          × (res.output ≡ t.output)
          × IsGiven t)
    × (res.status ≢ success → (res.chosen ≡ none) × (res.output ≡ none))

module _ {V : Type 0} where
  chosen-last :
      (ns : List String) (ts : List (Attempt V)) (IsGiven : Attempt V → Type 0)
      → Tried ns ts
      → ((t : Attempt V) → winner ts ≡ some t → IsGiven t)
      → (result_of ts).status ≡ success
      → (t : Attempt V) × (last ts ≡ some t)
        × ((result_of ts).chosen ≡ some t.name)
        × ((result_of ts).output ≡ t.output)
        × IsGiven t
  unfolding result_of final_status
  chosen-last ns [] IsGiven tried given e = absurd (ground arith)
  chosen-last ns (u ∷ us) IsGiven tried given e = elim (Option-cases (winner (u ∷ us))) [
    | inl lost ↦ absurd (ground (arith, lost))
    | inr (t, won) ↦ (
      t,
      winner-last ns (u ∷ us) t tried won,
      ground (arith, won),
      ground (arith, won),
      given t won,
    )
  ]

  nothing_chosen :
      (ts : List (Attempt V))
      → (result_of ts).status ≢ success
      → ((result_of ts).chosen ≡ none) × ((result_of ts).output ≡ none)
  unfolding result_of final_status
  nothing_chosen [] e = unfold winner in (refl, refl)
  nothing_chosen (u ∷ us) e = elim (Option-cases (winner (u ∷ us))) [
    | inl lost ↦ ground (arith, lost)
    | inr (t, won) ↦ absurd (e (ground (arith, won)))
  ]

-- What `run` returns tells of the attempts that its loop made on the providers in order, one each up
-- to the first success. Its status is SUCCESS exactly if one succeeded, and ALL_UNHEALTHY exactly if
-- there was an attempt and each found its provider in cooldown. On SUCCESS the chosen provider is
-- the last one attempted, and the output is what the provider registered under that name returned
-- for the task; on any other status there is no chosen provider and no output.
pub run-Tells :
    {V B : Type 0} (c : Cascade) (task : String) (kwargs : Dict V) (ctx : Context B) (a : Atlas V B)
    {res : CascadeResult V}
    → (run c task kwargs ctx a).0 ≡ returned res
    → let start = publish (cascade_started c.providers) a in
      Tells c.providers
        (try_each c task kwargs ctx c.providers start).0
        (IsAnswer task kwargs start.registry)
        res
unfolding run
run-Tells {V} c task kwargs ctx a {res} e =
    let start = publish (cascade_started c.providers) a in
    let made = (try_each c task kwargs ctx c.providers start).0 in
    let given = IsAnswer task kwargs start.registry in
    elim (Outcome-cases made) [
      | inl (ts, tried) ↦
          let told : result_of ts ≡ res = ground (arith, tried) in
          let order = try_each-Tried c task kwargs ctx c.providers start ts tried in
          subst (Tells {V = V} c.providers made given) told (
            unfold result_of in
            (
              ts,
              tried,
              order,
              refl,
              final_status-success ts,
              final_status-all_unhealthy ts,
              chosen-last c.providers ts given order
                  (λ t w. try_each-IsAnswer c task kwargs ctx c.providers start ts t tried w),
              nothing_chosen ts,
            ))
      | inr (x, stopped) ↦ absurd (ground (arith, stopped))
    ]
