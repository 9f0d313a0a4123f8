-- ===== src/Atlas/Registry/Valid.antt =====
-- The invariant of atlas/_registry.py: every registered provider is there once, under its own name,
-- and has a health record; no other has one, and the counters of each record agree. Every method of the registry keeps it.
use mathlib.Core.Option
use primal_core.Base.{
  ℕ, ◌≤◌, String, ◌≡◌, refl, true, Option, none, some, [], ◌∷◌, arith, inl, inr, Bool-cases,
  Option-cases, is_none, eq_iff,
}
use primal_core.Base.Dict.{Dict, get, put, get-put, get-pop}
use primal_core.Base.Dict.Owned.{IsOwned, put-IsOwned, pop-IsOwned}
use primal_core.Atlas.Health.{
  ProviderHealth, new_health, is_healthy, record_success, record_failure, reset,
}
use primal_core.Atlas.Provider.{Provider}
use primal_core.Atlas.Registry.{
  ProviderRegistry, register, unregister, update_health, reset_each, reset_health,
}

-- Failures in a row are failures, and failures are calls.
pub record IsCounted (h : ProviderHealth) : Type 0 where
  pub in_a_row : h.consecutive_failures ≤ h.total_failures
  pub of_calls : h.total_failures ≤ h.total_calls

pub record IsValid {V : Type 0} (r : ProviderRegistry V) : Type 0 where
  pub paired : (n : String) → is_none (get n r.providers) ≡ is_none (get n r.health)
  pub counted : (n : String) (h : ProviderHealth) → get n r.health ≡ some h → IsCounted h
  pub owned : IsOwned (λ p. p.name) r.providers

pub record_success-IsCounted : (h : ProviderHealth) → IsCounted h → IsCounted (record_success h)
unfolding record_success
record_success-IsCounted h c = omega arith

pub record_failure-IsCounted :
    (now cooldown : ℕ) (h : ProviderHealth)
    → IsCounted h
    → IsCounted (record_failure now cooldown h)
unfolding record_failure
record_failure-IsCounted now cooldown h c = omega arith

reset-IsCounted : (h : ProviderHealth) → IsCounted h → IsCounted (reset h)
unfolding reset
reset-IsCounted h c = omega arith

pub get-reset_each :
    (n : String) (d : Dict ProviderHealth) → get n (reset_each d) ≡ Option.map reset (get n d)
unfolding get reset_each
get-reset_each n [] = refl
get-reset_each n ((k, h) ∷ d) = ground (arith, get-reset_each n d)

module _ {V : Type 0} where
  -- A record that is there is replaced by one that counts well.
  put-IsValid :
      (name : String) (h h' : ProviderHealth) (r : ProviderRegistry V)
      → get name r.health ≡ some h
      → IsCounted h'
      → IsValid r
      → IsValid (record r { health = put name h' r.health })
  put-IsValid name h h' r e c v = record {
    paired = λ n. ground (arith, v.paired n, get-put name n h' r.health, eq_iff name n);
    counted = λ n k e'. grind (arith, v.counted n k, get-put name n h' r.health);
    owned = v.owned;
  }

  reset_each-IsValid :
      (r : ProviderRegistry V) → IsValid r → IsValid (record r { health = reset_each r.health })
  reset_each-IsValid r v = record {
    paired = λ n. ground (arith, v.paired n, get-reset_each n r.health);
    counted = λ n k e. grind (arith, v.counted n, get-reset_each n r.health, reset-IsCounted);
    owned = v.owned;
  }

  add-IsValid :
      (p : Provider V) (r : ProviderRegistry V)
      → IsValid r
      → IsValid
          (record { providers = put p.name p r.providers; health = put p.name new_health r.health })
  add-IsValid p r v = record {
    paired = λ n.
        ground
          (arith, v.paired n, get-put p.name n p r.providers, get-put p.name n new_health r.health);
    counted = λ n k e. ground (arith, v.counted n k, get-put p.name n new_health r.health);
    owned = put-IsOwned (λ q. q.name) p r.providers v.owned;
  }

  -- A registration, refused or not, keeps the registry valid.
  pub register-IsValid :
      (p : Provider V) (r : ProviderRegistry V) → IsValid r → IsValid (register p r).1
  unfolding register
  register-IsValid p r v = elim (Bool-cases (is_none (get p.name r.providers))) [
    | inl free ↦ rw free (add-IsValid p r v)
    | inr taken ↦ rw taken v
  ]

  pub unregister-IsValid :
      (name : String) (r : ProviderRegistry V) → IsValid r → IsValid (unregister name r)
  unfolding unregister
  unregister-IsValid name r v = record {
    paired = λ n. simp get-pop (ground (arith, v.paired n));
    counted = λ n h e. ground (arith, get-pop name n r.health, v.counted n h);
    owned = pop-IsOwned (λ q. q.name) name r.providers v.owned;
  }

  pub update_health-IsValid :
      (name : String) (f : ProviderHealth → ProviderHealth) (r : ProviderRegistry V)
      → ((h : ProviderHealth) → IsCounted h → IsCounted (f h))
      → IsValid r
      → IsValid (update_health name f r)
  unfolding update_health
  update_health-IsValid name f r keeps v = elim (Option-cases (get name r.health)) [
    | inl absent ↦ rw (absent, update_health) v
    | inr (h, there) ↦
        rw (there, update_health)
          (put-IsValid name h (f h) r there (keeps h (v.counted name h there)) v)
  ]

  pub reset_health-IsValid :
      (name : Option String) (r : ProviderRegistry V) → IsValid r → IsValid (reset_health name r)
  unfolding reset_health
  reset_health-IsValid none r v = reset_each-IsValid r v
  reset_health-IsValid (some name) r v = elim (Option-cases (get name r.health)) [
    | inl absent ↦ rw (absent, reset_health) (reset_each-IsValid r v)
    | inr (h, there) ↦
        rw (there, reset_health)
          (put-IsValid name h (reset h) r there (reset-IsCounted h (v.counted name h there)) v)
  ]

  -- A reset of a name that is not registered resets every provider: each has no failures in a row
  -- and is out of its cooldown at any time, with its totals unchanged.
  pub reset_health_unknown :
      (name n : String) (r : ProviderRegistry V) (h : ProviderHealth) (now : ℕ)
      → get name r.health ≡ none
      → get n r.health ≡ some h
      → (h' : ProviderHealth) × (get n (reset_health (some name) r).health ≡ some h')
        × (is_healthy now h' ≡ true)
        × (h'.consecutive_failures ≡ 0)
        × (h'.total_calls ≡ h.total_calls)
  unfolding reset_health is_healthy reset
  reset_health_unknown name n r h now absent there =
      (reset h, ground (arith, get-reset_each n r.health), ground arith, refl, refl)
