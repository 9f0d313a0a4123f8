-- ===== src/Atlas/Bandits/Persistence/RoundTrip.antt =====
-- The arms of src/primal_ai/atlas/bandit.py saved in a store and loaded again.
use primal_core.Base.{
  zero, ℕ, suc, String, false, List, [], ◌∷◌, Outcome, returned, ◌>>=◌, ◌≡◌, refl, ap, sym, ◌∙◌,
  Bool-cases, Option-cases, get_or, inl, inr, arith, str_eq, eq_iff,
}
use primal_core.Base.Dict.{Dict, get, put, NodupKeys, put-NodupKeys}
use primal_core.Base.Dict.Puts.{put_each, put_each_nil}
use primal_core.Base.Int.{ℤ, pos, is_zero}
use primal_core.Base.Python.{Python, IsPython, either_or, with_methods}
use primal_core.Base.Python.Kept.{zero_kept}
use primal_core.Base.Value.{Value, int, str, dict, end}
use primal_core.Storage.{Storage, IsLawful}
use primal_core.Atlas.Provider.{BanditOutcome}
use primal_core.Atlas.Bandits.{ArmState, Arms, new_arm, state_for, set_arm, ensure_arm, ucb1_update}
use primal_core.Atlas.Bandits.Updates.{learn}
use primal_core.Atlas.Bandits.Persistence.{
  to_dict, context_dicts, snapshot, storage_key, save, from_dict, contexts_from, fill, load,
}

-- `int(n)` is `n` for an integer that is not negative.
abbrev pub IsInt : (Value → Outcome ℕ) → Type 0
IsInt int_of = (n : ℕ) → int_of (int (pos n)) ≡ returned n

module _ (py : Python) (lawful : IsPython py) (int_of : Value → Outcome ℕ)
    (ints : IsInt int_of) where
  count_kept : (n : ℕ) → int_of (either_or (int (pos n)) (int (pos 0))) ≡ returned n
  unfolding either_or
  count_kept zero = ints 0
  count_kept (suc n) = let e : is_zero (pos (suc n)) ≡ false = ground arith in rw e (ints (suc n))

  key_kept : (s : String) → py.str_of (either_or (str s) (str "")) ≡ s
  unfolding either_or
  key_kept s = elim (Bool-cases (str_eq s "")) [
    | inl e ↦ rw e (lawful.str_of-str "" ∙ sym ((eq_iff s "").0 e))
    | inr e ↦ rw e (lawful.str_of-str s)
  ]

  from_dict-to_dict : (arm : ArmState) → from_dict py int_of (to_dict arm) ≡ returned arm
  unfolding from_dict to_dict
  from_dict-to_dict arm =
      rw
        (
          count_kept arm.successes,
          ◌>>=◌,
          count_kept arm.failures,
          ◌>>=◌,
          zero_kept py arm.total_reward,
          ◌>>=◌,
          count_kept arm.pulls,
          ◌>>=◌,
          zero_kept py arm.last_updated,
          ◌>>=◌,
          lawful.str_of-str arm.provider_name,
          key_kept arm.context_key,
        )
        refl

  contexts_from-context_dicts :
      (by_ctx : Dict ArmState) → contexts_from py int_of (context_dicts by_ctx) ≡ returned by_ctx
  unfolding contexts_from context_dicts
  contexts_from-context_dicts [] = refl
  contexts_from-context_dicts ((key, arm) ∷ by_ctx) =
      rw (from_dict-to_dict arm) (rw (contexts_from-context_dicts by_ctx))

  fill-snapshot :
      (arms out : Arms) → fill py int_of (snapshot arms) out ≡ (returned tt, put_each arms out)
  unfolding fill snapshot put_each
  fill-snapshot [] out = refl
  fill-snapshot ((provider, by_ctx) ∷ arms) out =
      rw (contexts_from-context_dicts by_ctx) (fill-snapshot arms (put provider by_ctx out))

  raw_kept :
      (arms : Arms)
      → with_methods (either_or (dict (snapshot arms)) (dict end)) ≡ returned (snapshot arms)
  unfolding either_or snapshot
  raw_kept [] = refl
  raw_kept ((provider, by_ctx) ∷ arms) = refl

  -- What `save` puts in a lawful store `load` finds there and reads back, every arm with its counts,
  -- whatever arms the loading bandit has had and whatever its class.
  pub load-save_arms :
      (T : Storage) (L : IsLawful T) (name algorithm : String) (now : ℤ) (arms others : Arms)
      (s : T.State)
      → NodupKeys arms
      → load py int_of T name (save T name algorithm now arms s) others ≡ (returned tt, arms)
  unfolding load save
  load-save_arms T L name algorithm now arms others s u =
      rw
        (
          L.get-put (storage_key name) (storage_key name) _ s,
          (eq_iff (storage_key name) (storage_key name)).1 refl,
        )
        (rw (raw_kept arms)
          (fill-snapshot arms [] ∙ ap (λ d. (returned tt, d)) (put_each_nil arms u)))

-- The updates keep every provider once.
set_arm-NodupKeys :
    (name key : String) (arm : ArmState) (arms : Arms)
    → NodupKeys arms
    → NodupKeys (set_arm name key arm arms)
unfolding set_arm
set_arm-NodupKeys name key arm arms u =
    put-NodupKeys name (put key arm (get_or (get name arms) [])) arms u

ensure_arm-NodupKeys :
    (name key : String) (arms : Arms) → NodupKeys arms → NodupKeys (ensure_arm name key arms).1
unfolding ensure_arm
ensure_arm-NodupKeys name key arms u = elim (Option-cases (state_for name key arms)) [
  | inl e ↦ rw e (set_arm-NodupKeys name key (new_arm name key) arms u)
  | inr (arm, e) ↦ rw e u
]

pub learn-NodupKeys :
    (outcomes : List (BanditOutcome × ℤ)) (arms : Arms)
    → NodupKeys arms
    → NodupKeys (learn ucb1_update outcomes arms)
unfolding ucb1_update
learn-NodupKeys [] arms u = u
learn-NodupKeys ((o, timestamp) ∷ outcomes) arms u =
    learn-NodupKeys outcomes (ucb1_update o timestamp arms) (
      set_arm-NodupKeys o.provider_name o.context_key _
        (ensure_arm o.provider_name o.context_key arms).1
        (ensure_arm-NodupKeys o.provider_name o.context_key arms u))
