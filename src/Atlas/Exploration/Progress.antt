-- ===== src/Atlas/Exploration/Progress.antt =====
-- Calls of `Atlas.invoke` of src/primal_ai/atlas/router.py under UCB1: each tries a new provider.
use primal_core.Base.{
  ℕ, ◌+◌, ◌≡◌, refl, ap, sym, ◌∙◌, String, Bool, true, false, Option, none, some, List, [], ◌∷◌,
  ◌&&◌, map, keep, contains, All, Outcome, returned, raised, violation, exception, base_exception,
  ◌==◌, str_eq, eq_iff, if◌then◌else◌, is_none, arith, Option-cases, Bool-cases, inl, inr,
}
use primal_core.Base.Dict.{Dict, get, values}
use primal_core.Base.Dict.Owned.{All-get, contains-keep, contains-values, get-UnderName}
use primal_core.Base.Int.{ℤ, pos}
use primal_core.Atlas.Health.{ProviderHealth}
use primal_core.Atlas.Provider.{Provider, BanditOutcome, Context, no_override, RoutingDecision}
use primal_core.Atlas.Registry.{ProviderRegistry, get_provider, get_health, all_providers}
use primal_core.Atlas.Registry.Valid.{IsValid}
use primal_core.Atlas.State.{Atlas, safe_update, publish, add_step}
use primal_core.Atlas.Router.{
  initial_pool, decide, lookup_all, resolve_selector_for_call, record_routing_decision,
}
use primal_core.Atlas.Router.Invoke.{finish_invoke, invoke_chosen, invoke}
use primal_core.Atlas.Choice.{is_eligible}
use primal_core.Atlas.Bandits.{Floats, Arms, ucb1_update, context_key_of}
use primal_core.Atlas.Bandits.Scores.{IsFinite}
use primal_core.Atlas.Bandits.Updates.{arm_at, ucb1_update-arm_at}
use primal_core.Atlas.Exploration.{ucb1_bandit, decide_untried}

-- Nothing that `except Exception` lets through
abbrev pub IsHandled : {V : Type 0} → Outcome V → Type 0
IsHandled (raised (base_exception k m)) = ⊥
IsHandled _ = Unit

-- What the selector is told of a call
abbrev told : String → String → Bool → ℤ → BanditOutcome
told x key ok reward = record {
  provider_name = x;
  success = ok;
  reward = reward;
  context_key = key;
}

found : {A : Type 0} (o : Option A) → is_none o ≡ false → (y : A) × (o ≡ some y)
found none h = cc h
found (some y) h = (y, refl)

-- The provider raises nothing that `except Exception` lets through.
abbrev pub Handles : {V : Type 0} → String → Dict V → Provider V → Type 0
Handles task kwargs p = (now : ℕ) → IsHandled (p.call task kwargs now).0

module _ {V : Type 0} where
  in_lookup :
      (x : String) (r : ProviderRegistry V) (v : IsValid r) (names : List String)
      → contains x (map (λ p. p.name) (lookup_all r names)) ≡ true
      → is_none (get_provider x r) ≡ false
  unfolding lookup_all get_provider
  in_lookup x r v [] m = cc m
  in_lookup x r v (n ∷ names) m = elim (Option-cases (get n r.providers)) [
    | inl e ↦ in_lookup x r v names (rw (e, lookup_all) at m)
    | inr (p, e) ↦
        let own = get-UnderName (λ (q : Provider V). q.name) n p r.providers v.owned.1 e in
        elim (Bool-cases (str_eq p.name x)) [
          | inl q ↦ ap is_none (ap (λ k. get k r.providers) (sym ((eq_iff p.name x).0 q) ∙ own) ∙ e)
          | inr q ↦ in_lookup x r v names (rw (e, lookup_all, q) at m)
        ]
  ]

  in_pool :
      (x : String) (r : ProviderRegistry V) (v : IsValid r) (candidates : Option (List String))
      → contains x (map (λ p. p.name) (initial_pool r candidates)) ≡ true
      → is_none (get_provider x r) ≡ false
  unfolding initial_pool all_providers get_provider
  in_pool x r v none m = contains-values (λ (p : Provider V). p.name) x r.providers v.owned.1 m
  in_pool x r v (some names) m = in_lookup x r v names m

one_more :
    (stamp : BanditOutcome → ℤ) (o : BanditOutcome) (x key n : String) (arms : Arms)
    → o.provider_name ≡ x
    → o.context_key ≡ key
    → let before = arm_at n key arms in
      let after = arm_at n key (ucb1_update o (stamp o) arms) in
      (after.pulls ≡ before.pulls + (if str_eq x n then 1 else 0))
      × (after.successes ≡ before.successes + (if str_eq x n && o.success then 1 else 0))
one_more stamp o x key n arms named keyed =
    ground (arith, ucb1_update-arm_at o (stamp o) arms n key, named, keyed, eq_iff key key)

-- What `invoke` returns and the selector is told, by how the provider answered
abbrev pub answer_of : {V : Type 0} → Outcome V → Option V
answer_of (returned v) = some v
answer_of (raised e) = none

abbrev pub answers? : {V : Type 0} → Outcome V → Bool
answers? (returned v) = true
answers? (raised e) = false

module _ {V : Type 0} (fl : Floats) (c : fl.F) (stamp : BanditOutcome → ℤ) (name : String) where
  finished :
      (x key : String) (out : Outcome V) (a : Atlas V Arms)
      → IsHandled out
      → let ended = finish_invoke x (some (ucb1_bandit fl c stamp name)) key out a in
        (o : BanditOutcome) × (o.provider_name ≡ x)
        × (o.context_key ≡ key)
        × (o.success ≡ answers? out)
        × (ended.1.bandits ≡ ucb1_update o (stamp o) a.bandits)
        × (ended.0 ≡ returned (x, answer_of out))
  unfolding finish_invoke safe_update ucb1_bandit
  finished x key (returned r) a h = (told x key true (pos 1000000), refl, refl, refl, refl, refl)
  finished x key (raised (violation v)) a h =
      (told x key false (pos 0), refl, refl, refl, refl, refl)
  finished x key (raised (exception k m)) a h =
      (told x key false (pos 0), refl, refl, refl, refl, refl)
  finished x key (raised (base_exception k m)) a h = elim h [ ]

  chosen_updates :
      (task : String) (kwargs : Dict V) (ctx : Context Arms) (x : String) (p : Provider V)
      (h : ProviderHealth) (a : Atlas V Arms)
      → ctx.selector ≡ no_override
      → a.active_selector ≡ some (ucb1_bandit fl c stamp name)
      → get_provider x a.registry ≡ some p
      → get_health x a.registry ≡ some h
      → IsHandled (p.call task kwargs a.now).0
      → let ended = invoke_chosen task kwargs ctx (some x) a in
        (o : BanditOutcome) × (o.provider_name ≡ x)
        × (o.context_key ≡ context_key_of ctx.bandit_context_key)
        × (o.success ≡ answers? (p.call task kwargs a.now).0)
        × (ended.1.bandits ≡ ucb1_update o (stamp o) a.bandits)
        × (ended.0 ≡ returned (x, answer_of (p.call task kwargs a.now).0))
  unfolding invoke_chosen resolve_selector_for_call
  chosen_updates task kwargs ctx x p h a s f g k handled =
      let (out, elapsed) = p.call task kwargs a.now in
      let (o, named, keyed, scored, updated, answered) =
        finished x (context_key_of ctx.bandit_context_key) out (record a { now = a.now + elapsed })
          handled in
      (o, named, keyed, scored, ground (arith, updated), ground (arith, answered))

  remembered :
      (d : RoutingDecision Arms) (a : Atlas V Arms)
      → ((record_routing_decision d a).registry ≡ a.registry)
        × ((record_routing_decision d a).active_selector ≡ a.active_selector)
        × ((record_routing_decision d a).bandits ≡ a.bandits)
        × ((record_routing_decision d a).now ≡ a.now)
  unfolding record_routing_decision add_step publish
  remembered d a = ground arith

  invoke_decided :
      (task : String) (candidates : Option (List String)) (kwargs : Dict V) (ctx : Context Arms)
      (a a1 : Atlas V Arms) (d : RoutingDecision Arms) (x : String)
      → decide task candidates ctx a ≡ (returned d, a1)
      → d.chosen_provider ≡ some x
      → invoke task candidates kwargs ctx a
        ≡ invoke_chosen task kwargs ctx (some x) (record_routing_decision d a1)
  unfolding invoke
  invoke_decided task candidates kwargs ctx a a1 d x decided chose = ground (arith, decided, chose)

  invoke_updates :
      (task : String) (candidates : Option (List String)) (kwargs : Dict V) (ctx : Context Arms)
      (a a1 : Atlas V Arms) (d : RoutingDecision Arms) (x : String)
      → ctx.selector ≡ no_override
      → a1.active_selector ≡ some (ucb1_bandit fl c stamp name)
      → IsValid a1.registry
      → All (Handles task kwargs) (values a1.registry.providers)
      → is_none (get_provider x a1.registry) ≡ false
      → decide task candidates ctx a ≡ (returned d, a1)
      → d.chosen_provider ≡ some x
      → let ended = invoke task candidates kwargs ctx a in
        (p : Provider V) × (get_provider x a1.registry ≡ some p)
        × (o : BanditOutcome) × (o.provider_name ≡ x)
        × (o.context_key ≡ context_key_of ctx.bandit_context_key)
        × (o.success ≡ answers? (p.call task kwargs a1.now).0)
        × (ended.1.bandits ≡ ucb1_update o (stamp o) a1.bandits)
        × (ended.0 ≡ returned (x, answer_of (p.call task kwargs a1.now).0))
  unfolding get_provider get_health
  invoke_updates task candidates kwargs ctx a a1 d x s f v handled there decided chose =
      let (p, e) = found (get x a1.registry.providers) there in
      let (h, k) = found (get x a1.registry.health) (sym (v.paired x) ∙ there) in
      let (same, selector, arms, clock) = remembered d a1 in
      let (o, named, keyed, scored, updated, answered) =
        chosen_updates task kwargs ctx x p h (record_routing_decision d a1) s (selector ∙ f)
          (ap (λ r. get x r.providers) same ∙ e) (ap (λ r. get x r.health) same ∙ k)
          (All-get (Handles task kwargs) x p a1.registry.providers handled e
            (record_routing_decision d a1).now) in
      (
        p,
        e,
        o,
        named,
        keyed,
        scored ∙ ap (λ t. answers? (p.call task kwargs t).0) clock,
        ap (λ r. r.1.bandits) (invoke_decided task candidates kwargs ctx a a1 d x decided chose)
            ∙ updated
            ∙ ap (ucb1_update o (stamp o)) arms,
        ap (λ r. r.0) (invoke_decided task candidates kwargs ctx a a1 d x decided chose)
            ∙ answered
            ∙ ap (λ t. returned (x, answer_of (p.call task kwargs t).0)) clock,
      )

  -- Under UCB1 and with no override, on a valid registry, with registered providers that raise nothing
  -- but what `except Exception` catches, and with floats in which the score of every pulled arm is
  -- finite: when some eligible candidate has not been pulled in the context, `invoke` calls a
  -- registered provider that is an eligible candidate and has not been pulled. It returns that
  -- provider's name and its answer, `None` where it raised. The provider then has one pull more, and
  -- one success more exactly if it answered; every other provider has as many pulls and successes as
  -- before.
  pub invoke_explores :
      (fin : IsFinite fl c) (task : String) (candidates : Option (List String)) (kwargs : Dict V)
      (ctx : Context Arms) (a : Atlas V Arms) (u : String)
      → ctx.selector ≡ no_override
      → a.active_selector ≡ some (ucb1_bandit fl c stamp name)
      → IsValid a.registry
      → All (Handles task kwargs) (values a.registry.providers)
      → contains u
          (map (λ p. p.name) (keep (is_eligible ctx a) (initial_pool a.registry candidates)))
        ≡ true
      → ((arm_at u (context_key_of ctx.bandit_context_key) a.bandits).pulls == 0) ≡ true
      → let key = context_key_of ctx.bandit_context_key in
        let ended = invoke task candidates kwargs ctx a in
        (x : String) × (p : Provider V) × (get_provider x a.registry ≡ some p)
        × (contains x
              (map (λ p. p.name) (keep (is_eligible ctx a) (initial_pool a.registry candidates)))
            ≡ true)
        × (((arm_at x key a.bandits).pulls == 0) ≡ true)
        × (ended.0 ≡ returned (x, answer_of (p.call task kwargs a.now).0))
        × ((n : String)
            → ((arm_at n key ended.1.bandits).pulls
                ≡ (arm_at n key a.bandits).pulls + (if str_eq x n then 1 else 0))
              × ((arm_at n key ended.1.bandits).successes
                  ≡ (arm_at n key a.bandits).successes
                    + (if str_eq x n && answers? (p.call task kwargs a.now).0 then 1 else 0)))
  invoke_explores fin task candidates kwargs ctx a u s f v handled m t =
      let key = context_key_of ctx.bandit_context_key in
      let (d, arms, x, decided, chose, good, member, untried, kept) =
        decide_untried fl c fin stamp name task candidates ctx a u s f m t in
      let pool = initial_pool a.registry candidates in
      let there =
        in_pool x a.registry v candidates
          (contains-keep (λ (p : Provider V). p.name) x (is_eligible ctx a) pool member) in
      let (p, e, o, named, keyed, scored, updated, answered) =
        invoke_updates task candidates kwargs ctx a (record a { bandits = arms }) d x s f v handled
          there decided chose in
      (
        x,
        p,
        e,
        member,
        untried,
        answered,
        λ n.
            let (pulls, successes) = one_more stamp o x key n arms named keyed in
            (
              ap (λ bs. (arm_at n key bs).pulls) updated
                  ∙ pulls
                  ∙ ap (λ arm. arm.pulls + (if str_eq x n then 1 else 0)) (kept n),
              ap (λ bs. (arm_at n key bs).successes) updated
                  ∙ successes
                  ∙ ap (λ arm. arm.successes + (if str_eq x n && o.success then 1 else 0)) (kept n)
                  ∙ ap
                      (λ b. (arm_at n key a.bandits).successes + (if str_eq x n && b then 1 else 0))
                      scored,
            ),
      )
