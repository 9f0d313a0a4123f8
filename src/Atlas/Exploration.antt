-- ===== src/Atlas/Exploration.antt =====
-- A decision of src/primal_ai/atlas/router.py that asks the UCB1 selector of atlas/bandit.py.
pub mod Progress
use primal_core.Base.{
  ℕ, ◌≡◌, refl, ap, sym, subst, String, Bool, true, false, Option, none, some, List, [], ◌∷◌, map,
  keep, contains, returned, ◌==◌, arith,
}
use primal_core.Base.Int.{ℤ}
use primal_core.Atlas.Provider.{
  Provider, Bandit, BanditOutcome, Context, no_override, RoutingDecision, success,
}
use primal_core.Atlas.State.{Atlas}
use primal_core.Atlas.Router.{
  initial_pool, matching, healthy_pool, decide, pick, Pick, pick_of_choice,
  resolve_selector_for_call, has_filter, considered, all_skipped,
}
use primal_core.Atlas.Choice.{is_eligible, healthy_pool-eq-keep}
use primal_core.Atlas.Decisions.{empty_pool}
use primal_core.Atlas.Bandits.{Floats, Arms, ucb1_select, ucb1_update, context_key_of}
use primal_core.Atlas.Bandits.Scores.{IsFinite}
use primal_core.Atlas.Bandits.Updates.{arm_at}
use primal_core.Atlas.Bandits.Exploring.{ucb1_select_untried, ucb1_select-arm_at}

-- A `UCB1Bandit` as a selector; `stamp` is the timestamp of an outcome.
abbrev pub ucb1_bandit : (fl : Floats) → fl.F → (BanditOutcome → ℤ) → String → Bandit Arms
unfolding ucb1_select ucb1_update
ucb1_bandit fl c stamp name = record {
  name = name;
  select =
      λ names key arms. let (r, arms') = ucb1_select fl c names key arms in (returned r.0, arms');
  update = λ o arms. (returned tt, ucb1_update o (stamp o) arms);
}

module _ {V B : Type 0} where
  -- The decision that `_decide` returns for what step 4 sets
  abbrev pub decision :
      String → Option (List String) → Context B → Atlas V B → Pick → RoutingDecision B
  unfolding considered all_skipped
  decision task candidates ctx a k = record {
    task = task;
    chosen_provider = k.chosen;
    candidates_considered = considered a.registry candidates;
    candidates_skipped = all_skipped candidates ctx a;
    status = k.status;
    reason = k.reason;
    context = ctx;
    selector_name = k.selector_name;
  }

  decide_picked :
      (task : String) (candidates : Option (List String)) (ctx : Context B) (a : Atlas V B)
      (k : Pick) (arms : B)
      → ctx.selector ≡ no_override
      → pick
          (matching candidates ctx a)
          (healthy_pool candidates ctx a)
          a.active_selector
          (has_filter candidates ctx)
          ctx
          a.bandits
        ≡ (returned k, arms)
      → decide task candidates ctx a
        ≡ (returned (decision task candidates ctx a k), record a { bandits = arms })
  unfolding decide resolve_selector_for_call decision
  decide_picked task candidates ctx a k arms e picked = ground (arith, picked)

module _ {V : Type 0} (fl : Floats) (c : fl.F) (fin : IsFinite fl c) (stamp : BanditOutcome → ℤ)
    (name : String) where
  pick_untried :
      (pool healthy : List (Provider V)) (filtered : Bool) (ctx : Context Arms) (arms : Arms)
      (u : String)
      → (pool ≡ [] → healthy ≡ [])
      → contains u (map (λ p. p.name) healthy) ≡ true
      → ((arm_at u (context_key_of ctx.bandit_context_key) arms).pulls == 0) ≡ true
      → (k : Pick) × (arms' : Arms) × (x : String) × (pick pool healthy
            (some (ucb1_bandit fl c stamp name))
            filtered
            ctx
            arms
          ≡ (returned k, arms'))
        × (k.chosen ≡ some x)
        × (k.status ≡ success)
        × (contains x (map (λ p. p.name) healthy) ≡ true)
        × (((arm_at x (context_key_of ctx.bandit_context_key) arms).pulls == 0) ≡ true)
        × ((n : String)
            → arm_at n (context_key_of ctx.bandit_context_key) arms'
              ≡ arm_at n (context_key_of ctx.bandit_context_key) arms)
  unfolding pick pick_of_choice ucb1_bandit
  pick_untried [] healthy filtered ctx arms u h m t = cc (h refl, m)
  pick_untried (q ∷ qs) [] filtered ctx arms u h m t = cc m
  pick_untried (q ∷ qs) (p ∷ ps) filtered ctx arms u h m t =
      let key = ctx.bandit_context_key in
      let (x, chose, member, untried) =
        ucb1_select_untried fl c fin (map (λ p. p.name) (p ∷ ps)) key arms u m t in
      (
        pick_of_choice name (some x),
        (ucb1_select fl c (map (λ p. p.name) (p ∷ ps)) key arms).1,
        x,
        rw chose refl,
        refl,
        refl,
        member,
        untried,
        λ n. ucb1_select-arm_at fl c (map (λ p. p.name) (p ∷ ps)) key arms n,
      )

  -- With UCB1 as the active selector and no override, when some eligible candidate (one that offers
  -- the capability, carries every tag and is out of its cooldown) has not been pulled in the context,
  -- a decision is returned with status SUCCESS, and it chooses an eligible candidate that has not
  -- been pulled; nothing changes but that arms are created that were not there.
  pub decide_untried :
      (task : String) (candidates : Option (List String)) (ctx : Context Arms) (a : Atlas V Arms)
      (u : String)
      → ctx.selector ≡ no_override
      → a.active_selector ≡ some (ucb1_bandit fl c stamp name)
      → contains u
          (map (λ p. p.name) (keep (is_eligible ctx a) (initial_pool a.registry candidates)))
        ≡ true
      → ((arm_at u (context_key_of ctx.bandit_context_key) a.bandits).pulls == 0) ≡ true
      → (d : RoutingDecision Arms) × (arms : Arms) × (x : String) × (decide task candidates ctx a
          ≡ (returned d, record a { bandits = arms }))
        × (d.chosen_provider ≡ some x)
        × (d.status ≡ success)
        × (contains x
              (map (λ p. p.name) (keep (is_eligible ctx a) (initial_pool a.registry candidates)))
            ≡ true)
        × (((arm_at x (context_key_of ctx.bandit_context_key) a.bandits).pulls == 0) ≡ true)
        × ((n : String)
            → arm_at n (context_key_of ctx.bandit_context_key) arms
              ≡ arm_at n (context_key_of ctx.bandit_context_key) a.bandits)
  unfolding decision
  decide_untried task candidates ctx a u e f m t =
      let same = healthy_pool-eq-keep candidates ctx a in
      let (k, arms, x, picked, chose, good, member, untried, kept) =
        pick_untried (matching candidates ctx a) (healthy_pool candidates ctx a)
          (has_filter candidates ctx) ctx a.bandits u (empty_pool candidates ctx a)
          (subst (λ ps. contains u (map (λ p. p.name) ps) ≡ true) (sym same) m) t in
      (
        decision task candidates ctx a k,
        arms,
        x,
        decide_picked task candidates ctx a k arms e (
            subst
              (λ s.
                pick (matching candidates ctx a) (healthy_pool candidates ctx a) s
                  (has_filter candidates ctx) ctx a.bandits
                ≡ (returned k, arms))
              (sym f) picked),
        chose,
        good,
        subst (λ ps. contains x (map (λ p. p.name) ps) ≡ true) same member,
        untried,
        kept,
      )
