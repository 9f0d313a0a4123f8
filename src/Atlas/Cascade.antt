-- ===== src/Atlas/Cascade.antt =====
-- src/primal_ai/atlas/cascade.py: ordered fallback with exponentially growing cooldowns.
pub mod Answers
pub mod Attempts
pub mod Cooling
use primal_core.Base.{
  ℕ, ◌+◌, ◌*◌, ◌^◌, min, String, Bool, true, false, Option, none, some, List, [], ◌∷◌, map, ◌&&◌,
  Outcome, returned, raised, violation, exception, base_exception, Exc, leb, if◌then◌else◌, get_or,
  all,
}
use primal_core.Base.Dict.{Dict}
use primal_core.Atlas.Health.{ProviderHealth, is_healthy, record_success, record_failure}
use primal_core.Base.Int.{pos}
use primal_core.Atlas.Provider.{
  Provider, Bandit, Context, RoutingStatus, success, failed, no_candidates, all_unhealthy,
}
use primal_core.Guardian.Policy.{and_then}
use primal_core.Atlas.Registry.{ProviderRegistry, get_provider, get_health, update_health}
use primal_core.Atlas.State.{
  Atlas, Attempt, AttemptReason, in_cooldown, from_exc, CascadeResult, cascade_started,
  cascade_attempt, cascade_completed, cascade_failed, cascade_step, publish, add_step, safe_update,
  with_registry,
}

pub record Cascade : Type 0 where
  pub providers : List String
  pub base_cooldown : ℕ
  pub max_cooldown : ℕ

-- `min(base * (2 ** n), max)`, n being the failures in a row before this one. The base is a float,
-- and from n = 1024 on the power is too large to be converted to one.
unfoldable pub cooldown : Cascade → ℕ → Outcome ℕ
cooldown c n =
    if leb 1024 n
    then raised (exception "OverflowError" "int too large to convert to float")
    else returned (min (c.base_cooldown * 2 ^ n) c.max_cooldown)

abbrev pub is_success : RoutingStatus → Bool
is_success success = true
is_success _ = false

abbrev pub is_all_unhealthy : RoutingStatus → Bool
is_all_unhealthy all_unhealthy = true
is_all_unhealthy _ = false

abbrev pub attempt_of :
    {V : Type 0} → String → RoutingStatus → Option AttemptReason → Option V → Attempt V
attempt_of n s r o = record { name = n; status = s; reason = r; output = o }

module _ {V B : Type 0} where
  unfoldable pub publish_attempt : Attempt V → Atlas V B → Atlas V B
  publish_attempt t a = publish (cascade_attempt t.name t.status t.reason) a

  unfoldable pub apply_exponential_cooldown :
      Cascade → String → Atlas V B → Outcome (Unit {0}) × Atlas V B
  apply_exponential_cooldown c name a = elim (get_health name a.registry) [
    | none ↦ (returned tt, a)
    | some h ↦ elim (cooldown c h.consecutive_failures) [
      | raised e ↦ (raised e, a)
      | returned wait ↦
          (returned tt, with_registry (update_health name (record_failure a.now wait)) a)
    ]
  ]

  -- The `try` of `_try_provider`, on how the provider's call ended.
  unfoldable pub finish_attempt :
      Cascade → String → String → Outcome V → Atlas V B → Outcome (Attempt V) × Atlas V B
  finish_attempt c name key (returned v) a =
      let t = attempt_of name success none (some v) in
      and_then
        (safe_update a.active_selector
          (record { provider_name = name; success = true; reward = pos 1000000; context_key = key })
          (with_registry (update_health name record_success) a))
        (λ _ a1. (returned t, publish_attempt t a1))
  finish_attempt c name key (raised (base_exception k m)) a = (raised (base_exception k m), a)
  finish_attempt c name key (raised e) a =
      let t = attempt_of name failed (some (from_exc e)) none in
      and_then (apply_exponential_cooldown c name a) (λ _ a1.
        and_then
          (safe_update a1.active_selector
            (record { provider_name = name; success = false; reward = pos 0; context_key = key })
            a1)
          (λ _ a2. (returned t, publish_attempt t a2)))

  -- `provider.invoke` starts now and takes the time that it takes.
  unfoldable pub call_provider :
      Cascade
      → String
      → String
      → Dict V
      → String
      → Provider V
      → Atlas V B
      → Outcome (Attempt V) × Atlas V B
  call_provider c name task kwargs key p a =
      let (out, elapsed) = p.call task kwargs a.now in
      finish_attempt c name key out (record a { now = a.now + elapsed })

  unfoldable pub try_provider :
      Cascade → String → String → Dict V → Context B → Atlas V B → Outcome (Attempt V) × Atlas V B
  try_provider c name task kwargs ctx a =
      let missing = attempt_of name no_candidates (some AttemptReason.not_registered) none in
      let cooling = attempt_of name all_unhealthy (some in_cooldown) none in
      let key = get_or ctx.bandit_context_key "" in
      elim (get_provider name a.registry) [
        | none ↦ (returned missing, publish_attempt missing a)
        | some p ↦ elim (get_health name a.registry) [
          | none ↦ call_provider c name task kwargs key p a
          | some h ↦
              if is_healthy a.now h
              then call_provider c name task kwargs key p a
              else (returned cooling, publish_attempt cooling a)
        ]
      ]

  -- The `for` of `run`, up to the first success: the attempts made.
  unfoldable pub try_each :
      Cascade
      → String
      → Dict V
      → Context B
      → List String
      → Atlas V B
      → Outcome (List (Attempt V)) × Atlas V B
  try_each c task kwargs ctx [] a = (returned [], a)
  try_each c task kwargs ctx (n ∷ ns) a =
      let (r, a') = try_provider c n task kwargs ctx a in
      elim r [
        | raised e ↦ (raised e, a')
        | returned t ↦ elim (is_success t.status) [
          | true ↦ (returned (t ∷ []), a')
          | false ↦
              let (rest, a'') = try_each c task kwargs ctx ns a' in
              elim rest [ raised e ↦ (raised e, a'') | returned ts ↦ (returned (t ∷ ts), a'') ]
        ]
      ]

-- What the loop leaves in `chosen` and `output`: those of the attempt that succeeded.
unfoldable pub winner : {V : Type 0} → List (Attempt V) → Option (Attempt V)
winner [] = none
winner (t ∷ ts) = if is_success t.status then some t else winner ts

-- `final_status` after the loop.
unfoldable pub final_status : {V : Type 0} → List (Attempt V) → RoutingStatus
final_status [] = failed
final_status (t ∷ ts) = elim (winner (t ∷ ts)) [
  | some _ ↦ success
  | none ↦ if all (λ u. is_all_unhealthy u.status) (t ∷ ts) then all_unhealthy else failed
]

unfoldable pub result_of : {V : Type 0} → List (Attempt V) → CascadeResult V
result_of ts = record {
  attempts = map (λ t. (t.name, t.status, t.reason)) ts;
  chosen = elim (winner ts) [ none ↦ none | some t ↦ some t.name ];
  output = elim (winner ts) [ none ↦ none | some t ↦ t.output ];
  status = final_status ts;
}

module _ {V B : Type 0} where
  unfoldable pub finish_run : CascadeResult V → Atlas V B → Atlas V B
  finish_run res a =
      add_step (cascade_step res)
        (publish (if is_success res.status then cascade_completed res else cascade_failed res) a)

  -- `Cascade.run`; what gets out of it is a `BaseException` of a provider or of the selector, and
  -- the overflow of the cooldown.
  unfoldable pub run :
      Cascade → String → Dict V → Context B → Atlas V B → Outcome (CascadeResult V) × Atlas V B
  run c task kwargs ctx a =
      let (r, a') =
        try_each c task kwargs ctx c.providers (publish (cascade_started c.providers) a) in
      elim r [
        | raised e ↦ (raised e, a')
        | returned ts ↦ let res = result_of ts in (returned res, finish_run res a')
      ]
