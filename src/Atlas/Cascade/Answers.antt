-- ===== src/Atlas/Cascade/Answers.antt =====
-- The answers behind the attempts of atlas/cascade.py: a success holds what the registered provider
-- returned.
use primal_core.Base.{
  ℕ, ◌+◌, ap, ◌∙◌, sym, raised, Bool-cases, get_or, String, ◌≡◌, refl, some, List, [], ◌∷◌, arith,
  Outcome, returned, Option-cases, subst, inl, inr,
}
use primal_core.Base.Dict.{Dict, get}
use primal_core.Atlas.Provider.{Provider, Context, success}
use primal_core.Atlas.Registry.{ProviderRegistry, get_provider, update_health}
use primal_core.Atlas.Health.{ProviderHealth, record_success, record_failure}
use primal_core.Atlas.Validity.{keeps_try_provider}
use primal_core.Atlas.State.{Atlas, Attempt}
use primal_core.Atlas.Cascade.{
  Cascade, is_success, finish_attempt, call_provider, try_provider, try_each, winner,
}

-- The attempt is the success of the provider registered under its name, whose answer to the task it
-- holds.
abbrev pub IsAnswer : {V : Type 0} → String → Dict V → ProviderRegistry V → Attempt V → Type 0
IsAnswer {V} task kwargs r t =
    (p : Provider V) × (now : ℕ) × (v : V) × (get_provider t.name r ≡ some p)
    × ((p.call task kwargs now).0 ≡ returned v)
    × (t.output ≡ some v)

module _ {V : Type 0} where
  update_health-providers :
      (name : String) (f : ProviderHealth → ProviderHealth) (r : ProviderRegistry V)
      → (update_health name f r).providers ≡ r.providers
  unfolding update_health
  update_health-providers name f r = ground arith

  IsAnswer-same :
      (task : String) (kwargs : Dict V) (r r' : ProviderRegistry V) (t : Attempt V)
      → r'.providers ≡ r.providers
      → IsAnswer task kwargs r' t
      → IsAnswer task kwargs r t
  unfolding get_provider
  IsAnswer-same task kwargs r r' t same (p, now, v, found, gave, output) =
      (p, now, v, ap (get t.name) (sym same) ∙ found, gave, output)

module _ {V B : Type 0} where
  finish_attempt-name :
      (c : Cascade) (name key : String) (out : Outcome V) (a : Atlas V B) {t : Attempt V}
      → (finish_attempt c name key out a).0 ≡ returned t
      → t.name ≡ name
  unfolding finish_attempt
  finish_attempt-name c name key out a e = ground arith

  pub try_provider-name :
      (c : Cascade) (name task : String) (kwargs : Dict V) (ctx : Context B) (a : Atlas V B)
      {t : Attempt V}
      → (try_provider c name task kwargs ctx a).0 ≡ returned t
      → t.name ≡ name
  unfolding try_provider call_provider
  try_provider-name c name task kwargs ctx a e = grind (arith, finish_attempt-name)

  try_provider-providers :
      (c : Cascade) (name task : String) (kwargs : Dict V) (ctx : Context B) (a : Atlas V B)
      → (try_provider c name task kwargs ctx a).1.registry.providers ≡ a.registry.providers
  try_provider-providers c name task kwargs ctx a =
      keeps_try_provider (λ r. r.providers ≡ a.registry.providers)
        (λ n r e. update_health-providers n record_success r ∙ e)
        (λ n now wait r e. update_health-providers n (λ h. record_failure now (wait h) h) r ∙ e) c
        name task kwargs ctx a refl

  finish_attempt-answer :
      (c : Cascade) (name key : String) (out : Outcome V) (a : Atlas V B) {t : Attempt V}
      → (finish_attempt c name key out a).0 ≡ returned t
      → t.status ≡ success
      → (v : V) × (out ≡ returned v) × (t.output ≡ some v)
  unfolding finish_attempt
  finish_attempt-answer c name key (returned v) a e s = (v, refl, ground arith)
  finish_attempt-answer c name key (raised x) a e s = absurd (ground arith)

  called :
      (c : Cascade) (name task : String) (kwargs : Dict V) (ctx : Context B) (a : Atlas V B)
      (p : Provider V) {t : Attempt V}
      → (try_provider c name task kwargs ctx a).0 ≡ returned t
      → t.status ≡ success
      → get_provider name a.registry ≡ some p
      → (call_provider c name task kwargs (get_or ctx.bandit_context_key "") p a).0 ≡ returned t
  unfolding try_provider
  called c name task kwargs ctx a p e s found = ground (arith, found)

  try_provider-IsAnswer :
      (c : Cascade) (name task : String) (kwargs : Dict V) (ctx : Context B) (a : Atlas V B)
      {t : Attempt V}
      → (try_provider c name task kwargs ctx a).0 ≡ returned t
      → t.status ≡ success
      → IsAnswer task kwargs a.registry t
  unfolding try_provider call_provider
  try_provider-IsAnswer c name task kwargs ctx a {t} e s =
      elim (Option-cases (get_provider name a.registry)) [
        | inl absent ↦ absurd (ground arith)
        | inr (p, found) ↦
            let (v, gave, output) =
              finish_attempt-answer c name (get_or ctx.bandit_context_key "")
                (p.call task kwargs a.now).0
                (record a { now = a.now + (p.call task kwargs a.now).1 })
                (called c name task kwargs ctx a p e s found) s in
            (
              p,
              a.now,
              v,
              ap (λ n. get_provider n a.registry) (try_provider-name c name task kwargs ctx a e)
                  ∙ found,
              gave,
              output,
            )
      ]

  pub try_each-IsAnswer :
      (c : Cascade) (task : String) (kwargs : Dict V) (ctx : Context B) (ns : List String)
      (a : Atlas V B) (ts : List (Attempt V)) (t : Attempt V)
      → (try_each c task kwargs ctx ns a).0 ≡ returned ts
      → winner ts ≡ some t
      → IsAnswer task kwargs a.registry t
  unfolding try_each winner
  try_each-IsAnswer c task kwargs ctx [] a ts t e w = absurd (ground arith)
  try_each-IsAnswer c task kwargs ctx (n ∷ ns) a [] t e w = absurd (ground arith)
  try_each-IsAnswer c task kwargs ctx (n ∷ ns) a (u ∷ us) t e w =
      let a' = (try_provider c n task kwargs ctx a).1 in
      let tried : (try_provider c n task kwargs ctx a).0 ≡ returned u = ground arith in
      elim (Bool-cases (is_success u.status)) [
        | inl y ↦
            let same : u ≡ t = ground (arith, y) in
            subst (IsAnswer task kwargs a.registry) same
              (try_provider-IsAnswer c n task kwargs ctx a tried (ground (arith, y)))
        | inr lost ↦
            IsAnswer-same task kwargs a.registry a'.registry t
              (try_provider-providers c n task kwargs ctx a)
              (try_each-IsAnswer c task kwargs ctx ns a' us t (ground (arith, tried, lost))
                (ground (arith, lost)))
      ]
