-- ===== src/Atlas/Decisions.antt =====
-- The decisions that `_decide` of router.py returns: which provider it chooses, what its status
-- says, and that it accounts for every candidate.
use primal_core.Base.{
  ◌+◌, String, Bool, ◌≡◌, ◌≢◌, ◌↔◌, refl, ap, ◌∙◌, Option, none, some, List, [], ◌∷◌, returned,
  keep, length, arith,
}
use primal_core.Atlas.Provider.{
  Provider, Bandit, Context, no_override, RoutingDecision, RoutingStatus, Reason, success,
  all_unhealthy,
}
use primal_core.Atlas.State.{Atlas}
use primal_core.Atlas.Router.{
  initial_pool, matching, healthy_pool, decide, pick, Pick, pick_of_choice,
  resolve_selector_for_call, has_filter, survivors, considered, all_skipped,
}
use primal_core.Atlas.Choice.{is_eligible, healthy_pool-eq-keep, skipped_accounts}

-- The name of the first provider of a list.
abbrev pub first_name : {V : Type 0} → List (Provider V) → Option String
first_name [] = none
first_name (p ∷ ps) = some p.name

-- What the fields of a decision say, `pool` being the candidates that match the filters and
-- `healthy` those of them that are out of their cooldown.
abbrev pub Agrees :
    {V : Type 0}
    → List (Provider V)
    → List (Provider V)
    → RoutingStatus
    → Option String
    → Option Reason
    → Type 0
Agrees pool healthy status chosen reason =
    ((status ≡ success) ↔ (chosen ≢ none))
    × ((status ≡ success) ↔ (reason ≡ none))
    × ((status ≡ all_unhealthy) ↔ ((pool ≢ []) × (healthy ≡ [])))

module _ {V B : Type 0} where
  pick_first :
      (pool healthy : List (Provider V)) (filtered : Bool) (ctx : Context B) (arms : B)
      → (pool ≡ [] → healthy ≡ [])
      → (k : Pick) × (pick pool healthy none filtered ctx arms ≡ (returned k, arms))
        × (k.chosen ≡ first_name healthy)
  unfolding pick
  pick_first [] healthy filtered ctx arms h = (_, refl, ground (arith, h refl))
  pick_first (q ∷ qs) [] filtered ctx arms h = (_, refl, refl)
  pick_first (q ∷ qs) (p ∷ ps) filtered ctx arms h = (_, refl, refl)

  pub empty_pool :
      (candidates : Option (List String)) (ctx : Context B) (a : Atlas V B)
      → matching candidates ctx a ≡ []
      → healthy_pool candidates ctx a ≡ []
  unfolding healthy_pool survivors
  empty_pool candidates ctx a h = rw h

  -- Without a selector a decision is always returned, nothing changes, and the choice is the first
  -- provider of the candidates (all of them, in order of registration, if none are listed) that
  -- offers the capability, carries every tag and is out of its cooldown.
  pub decide_first_eligible :
      (task : String) (candidates : Option (List String)) (ctx : Context B) (a : Atlas V B)
      → ctx.selector ≡ no_override
      → a.active_selector ≡ none
      → (d : RoutingDecision B) × (decide task candidates ctx a ≡ (returned d, a))
        × (d.chosen_provider
            ≡ first_name (keep (is_eligible ctx a) (initial_pool a.registry candidates)))
  unfolding decide resolve_selector_for_call
  decide_first_eligible task candidates ctx a e f =
      let (k, picked, chose) =
        pick_first (matching candidates ctx a) (healthy_pool candidates ctx a)
          (has_filter candidates ctx) ctx a.bandits (empty_pool candidates ctx a) in
      (
        record {
          task = task;
          chosen_provider = k.chosen;
          candidates_considered = considered a.registry candidates;
          candidates_skipped = all_skipped candidates ctx a;
          status = k.status;
          reason = k.reason;
          context = ctx;
          selector_name = k.selector_name;
        },
        ground (arith, picked),
        chose ∙ ap first_name (healthy_pool-eq-keep candidates ctx a),
      )

  pick-Agrees :
      (pool healthy : List (Provider V)) (s : Option (Bandit B)) (filtered : Bool) (ctx : Context B)
      (arms : B)
      → (pool ≡ [] → healthy ≡ [])
      → {k : Pick} → (pick pool healthy s filtered ctx arms).0 ≡ returned k
      → Agrees pool healthy k.status k.chosen k.reason
  unfolding pick pick_of_choice
  pick-Agrees [] healthy s filtered ctx arms h e = grind arith
  pick-Agrees (q ∷ qs) [] s filtered ctx arms h e = grind arith
  pick-Agrees (q ∷ qs) (p ∷ ps) none filtered ctx arms h e = grind arith
  pick-Agrees (q ∷ qs) (p ∷ ps) (some s) filtered ctx arms h e = grind arith

  -- A decision that is returned has status SUCCESS exactly if a provider is chosen, and exactly if
  -- it gives no reason; it has status ALL_UNHEALTHY exactly if some candidate matches the filters
  -- and all that match are cooling down.
  pub decide_status :
      (task : String) (candidates : Option (List String)) (ctx : Context B) (a a' : Atlas V B)
      (d : RoutingDecision B)
      → decide task candidates ctx a ≡ (returned d, a')
      → Agrees
          (matching candidates ctx a)
          (healthy_pool candidates ctx a)
          d.status
          d.chosen_provider
          d.reason
  unfolding decide
  decide_status task candidates ctx a a' d e =
      grind (arith, pick-Agrees, empty_pool candidates ctx a)

  -- A decision that is returned accounts for every candidate: the eligible ones and those skipped
  -- with a reason are as many as those considered.
  pub decide_accounts :
      (task : String) (candidates : Option (List String)) (ctx : Context B) (a a' : Atlas V B)
      (d : RoutingDecision B)
      → decide task candidates ctx a ≡ (returned d, a')
      → length (keep (is_eligible ctx a) (initial_pool a.registry candidates))
          + length d.candidates_skipped
        ≡ length d.candidates_considered
  unfolding decide
  decide_accounts task candidates ctx a a' d e =
      ground (arith, skipped_accounts candidates ctx a, healthy_pool-eq-keep candidates ctx a)
