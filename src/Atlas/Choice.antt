-- ===== src/Atlas/Choice.antt =====
-- What a routing decision chooses: the loops of router.py's `_decide` against one test of a
-- provider, written independently of the code.

use primal_core.Base.{
  ℕ, suc, ◌+◌, String, Bool, true, ◌≡◌, refl, ap, Option, none, some, List, [], ◌∷◌, map, ◌&&◌,
  is_none, keep, all, length, arith, length-append,
}
use primal_core.Atlas.Health.{is_healthy}
use primal_core.Atlas.Provider.{Provider, Context, SkipReason, has_capability, has_tag}
use primal_core.Atlas.Registry.{ProviderRegistry, get_health, all_providers}
use primal_core.Atlas.State.{Atlas}
use primal_core.Atlas.Router.{
  survivors, rejected, capability_test, tags_test, health_test, lookup_all, unregistered,
  initial_pool, considered, initial_skipped, matching, healthy_pool, all_skipped,
}

-- The provider offers the capability, if one is asked for.
abbrev pub offers : {V : Type 0} → Option String → Provider V → Bool
offers none p = true
offers (some c) p = has_capability p.info c

-- The provider is past its cooldown window, or has no health record.
abbrev pub in_service : {V : Type 0} → ProviderRegistry V → ℕ → Provider V → Bool
in_service r now p = elim (get_health p.name r) [ none ↦ true | some h ↦ is_healthy now h ]

abbrev pub is_eligible : {V B : Type 0} → Context B → Atlas V B → Provider V → Bool
is_eligible ctx a p =
    offers ctx.capability p
    && (all (λ t. has_tag p.info t) ctx.tags && in_service a.registry a.now p)

module _ {ℓ} {A : Type ℓ} where
  keep-keep : (p q : A → Bool) (xs : List A) → keep p (keep q xs) ≡ keep (λ x. q x && p x) xs
  keep-keep p q [] = refl
  keep-keep p q (x ∷ xs) = ground (arith, keep-keep p q xs)

  keep_congr : (p q : A → Bool) → ((x : A) → p x ≡ q x) → (xs : List A) → keep p xs ≡ keep q xs
  keep_congr p q h [] = refl
  keep_congr p q h (x ∷ xs) = ground (arith, h x, keep_congr p q h xs)

module _ {V : Type 0} where
  survivors-eq-keep :
      (test : Provider V → Option SkipReason) (ps : List (Provider V))
      → survivors test ps ≡ keep (λ p. is_none (test p)) ps
  unfolding survivors
  survivors-eq-keep test [] = refl
  survivors-eq-keep test (p ∷ ps) = ground (arith, survivors-eq-keep test ps)

  capability_test-offers :
      (c : Option String) (p : Provider V) → is_none (capability_test c p) ≡ offers c p
  unfolding capability_test
  capability_test-offers none p = refl
  capability_test-offers (some c) p = ground arith

  nothing_missing :
      (p : Provider V) (tags : List String)
      → is_none (tags_test tags p) ≡ all (λ t. has_tag p.info t) tags
  unfolding tags_test
  nothing_missing p [] = refl
  nothing_missing p (t ∷ ts) = ground (arith, nothing_missing p ts)

  health_test-in_service :
      (r : ProviderRegistry V) (now : ℕ) (p : Provider V)
      → is_none (health_test r now p) ≡ in_service r now p
  unfolding health_test
  health_test-in_service r now p = ground arith

  -- Steps 2 and 3 keep exactly the eligible providers, in the order of the pool.
  pub healthy_pool-eq-keep :
      {B : Type 0} (candidates : Option (List String)) (ctx : Context B) (a : Atlas V B)
      → healthy_pool candidates ctx a
        ≡ keep (is_eligible ctx a) (initial_pool a.registry candidates)
  unfolding healthy_pool matching
  healthy_pool-eq-keep candidates ctx a =
      let pool = initial_pool a.registry candidates in
      simp (survivors-eq-keep, keep-keep)
        (keep_congr _ _
          (λ x. ground (
            arith,
            capability_test-offers ctx.capability x,
            nothing_missing x ctx.tags,
            health_test-in_service a.registry a.now x,
          ))
          pool)

  -- Every provider that enters the loop is kept or is left out with a reason.
  survivors-rejected :
      (test : Provider V → Option SkipReason) (ps : List (Provider V))
      → length (survivors test ps) + length (rejected test ps) ≡ length ps
  unfolding survivors rejected
  survivors-rejected test [] = omega arith
  survivors-rejected test (p ∷ ps) = ground (arith, survivors-rejected test ps)

  length-lookup_all :
      (r : ProviderRegistry V) (ns : List String)
      → length (lookup_all r ns) + length (unregistered r ns) ≡ length ns
  unfolding lookup_all unregistered
  length-lookup_all r [] = omega arith
  length-lookup_all r (n ∷ ns) = ground (arith, length-lookup_all r ns)

  length-map-name : (ps : List (Provider V)) → length (map (λ p. p.name) ps) ≡ length ps
  length-map-name [] = refl
  length-map-name (p ∷ ps) = ap suc (length-map-name ps)

  pool_accounts :
      (r : ProviderRegistry V) (candidates : Option (List String))
      → length (initial_pool r candidates) + length (initial_skipped r candidates)
        ≡ length (considered r candidates)
  unfolding initial_pool initial_skipped considered
  pool_accounts r none = omega (arith, length-map-name (all_providers r))
  pool_accounts r (some ns) = length-lookup_all r ns

  pub skipped_accounts :
      {B : Type 0} (candidates : Option (List String)) (ctx : Context B) (a : Atlas V B)
      → length (healthy_pool candidates ctx a) + length (all_skipped candidates ctx a)
        ≡ length (considered a.registry candidates)
  unfolding all_skipped healthy_pool matching
  skipped_accounts candidates ctx a =
      let pool = initial_pool a.registry candidates in
      let capable = survivors (capability_test ctx.capability) pool in
      let tagged = survivors (tags_test ctx.tags) capable in
      simp length-append (
        omega (
          arith,
          pool_accounts a.registry candidates,
          survivors-rejected (capability_test ctx.capability) pool,
          survivors-rejected (tags_test ctx.tags) capable,
          survivors-rejected (health_test a.registry a.now) tagged,
        ))
