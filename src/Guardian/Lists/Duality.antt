-- ===== src/Guardian/Lists/Duality.antt =====
-- An allow list against a block list of the same tools, and the patterns of a block list
-- (src/primal_ai/guardian/_builtins/allow_list.py, block_list.py).
use primal_core.Base.{
  String, ◌≡◌, refl, Bool, false, not, ◌||◌, ◌&&◌, Option, none, some, List, [], ◌∷◌, any, arith,
  Outcome, Bool-cases, inl, inr,
}
use primal_core.Base.Value.{Value, Items, nil, cons, Fields, end, field}
use primal_core.Guardian.Policy.{Call}
use primal_core.Guardian.Combinators.Choice.{is_returned}
use primal_core.Guardian.Lists.{
  allow_pre, block_pre, match_args, match_kwargs, match_patterns, argument, is_in,
}

module _ (hostname : String → Outcome (Option String)) (search : String → String → Bool)
    (to_text : Value → String) where
  -- A call that names a tool passes the allow list of some tools exactly when the block list of the
  -- same tools stops it, when neither list has domains or patterns.
  pub allow_pre-block_pre :
      (tools : List String) (c : Call) (v : Value)
      → argument "tool" c ≡ some v
      → is_returned (allow_pre hostname (some tools) none c)
        ≡ not (is_returned (block_pre hostname search to_text (some tools) none [] c))
  unfolding allow_pre block_pre match_patterns
  allow_pre-block_pre tools c v named = elim (Bool-cases (is_in v tools)) [
    | inl e ↦ rw (named, allow_pre, block_pre, e) refl
    | inr e ↦ rw (named, allow_pre, block_pre, e) refl
  ]

  -- Some argument is matched by the pattern.
  abbrev pub hits_args : String → Items → Bool
  hits_args p nil = false
  hits_args p (cons v vs) = search p (to_text v) || hits_args p vs

  abbrev pub hits_kwargs : String → Fields → Bool
  hits_kwargs p end = false
  hits_kwargs p (field k v fs) = search p (to_text v) || hits_kwargs p fs

  match_args-hits :
      (p : String) (vs : Items) (rest : Outcome (Unit {0}))
      → is_returned (match_args hostname search to_text p vs rest)
        ≡ (not (hits_args p vs) && is_returned rest)
  unfolding match_args
  match_args-hits p nil rest = refl
  match_args-hits p (cons v vs) rest = ground (arith, match_args-hits p vs rest)

  match_kwargs-hits :
      (p : String) (fs : Fields) (rest : Outcome (Unit {0}))
      → is_returned (match_kwargs hostname search to_text p fs rest)
        ≡ (not (hits_kwargs p fs) && is_returned rest)
  unfolding match_kwargs
  match_kwargs-hits p end rest = refl
  match_kwargs-hits p (field k v fs) rest = ground (arith, match_kwargs-hits p fs rest)

  -- A block list of patterns alone stops a call exactly when some pattern is found in some
  -- positional argument or some keyword argument.
  pub block_pre-patterns :
      (patterns : List String) (c : Call)
      → is_returned (block_pre hostname search to_text none none patterns c)
        ≡ not (any (λ p. hits_args p c.args || hits_kwargs p c.kwargs) patterns)
  unfolding block_pre match_patterns
  block_pre-patterns [] c = refl
  block_pre-patterns (p ∷ ps) c = ground (
    arith,
    match_args-hits p c.args (
        match_kwargs hostname search to_text p c.kwargs
          (match_patterns hostname search to_text ps c)),
    match_kwargs-hits p c.kwargs (match_patterns hostname search to_text ps c),
    block_pre-patterns ps c,
  )
