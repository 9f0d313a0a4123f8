-- ===== src/Atlas/Bandits/Exploring.antt =====
-- UCB1 of src/primal_ai/atlas/bandit.py tries every candidate once before it repeats one.
use primal_core.Base.{
  ℕ, ◌≡◌, refl, ap, ◌∙◌, sym, subst, ◌⊎◌, inl, inr, String, Bool, true, false, Option, some, List,
  [], ◌∷◌, str_eq, eq_iff, if◌then◌else◌, ◌||◌, ◌==◌, arith, contains, Bool-cases, All,
}
use primal_core.Base.Dict.{Dict, get, put, get-put}
use primal_core.Atlas.Bandits.{
  Floats, ArmState, Arms, ensure_arm, best, ucb1_score, score_all, ucb1_select, total_pulls,
  context_key_of,
}
use primal_core.Atlas.Bandits.Updates.{arm_at, ensure_arm-arm_at, arm_at-ensure_arm}
use primal_core.Atlas.Bandits.Scores.{
  IsFinite, best_pair, best_from-best_pair, Each, put-Each, best_pair-Each, HasInf, IsBelow,
  best_pair-inf,
}

module _ (fl : Floats) (c : fl.F) (fin : IsFinite fl c) (total : ℕ) (all : List String)
    (key : String) (start : Arms) where
  open fl use {F, less, inf}

  abbrev is_untried : String → Bool
  is_untried k = (arm_at k key start).pulls == 0

  -- An entry of the scores: a candidate, with the score of its arm
  abbrev IsScored : String → F → Type 0
  IsScored k x = (contains k all ≡ true) × (x ≡ ucb1_score fl c total (arm_at k key start))

  untried_score : (arm : ArmState) → (arm.pulls == 0) ≡ true → ucb1_score fl c total arm ≡ inf
  untried_score arm h = ground arith

  IsScored-IsBelow : (k : String) (x : F) → IsScored k x → IsBelow fl k x
  IsScored-IsBelow k x (m, e) = elim (Bool-cases (is_untried k)) [
    | inl u ↦ inl (e ∙ untried_score (arm_at k key start) u)
    | inr t ↦ inr (ap (λ y. less y inf) e ∙ fin.score_less total (arm_at k key start) t)
  ]

  Each-IsBelow : (d : Dict F) → Each fl IsScored d → Each fl (IsBelow fl) d
  Each-IsBelow [] e = tt
  Each-IsBelow ((k, x) ∷ d) (p, e) = (IsScored-IsBelow k x p, Each-IsBelow d e)

  untried_of_inf : (k : String) (x : F) → IsScored k x → x ≡ inf → is_untried k ≡ true
  untried_of_inf k x (m, e) i = elim (Bool-cases (is_untried k)) [
    | inl u ↦ u
    | inr t ↦
        let low = fin.score_less total (arm_at k key start) t in
        let clash : true ≡ false =
          sym (ap (λ y. less y inf) (sym i ∙ e) ∙ low) ∙ fin.less_inf inf in
        cc clash
  ]

  -- The arms are those of the start, but for new ones.
  abbrev IsSame : Arms → Type 0
  IsSame arms = (k : String) → arm_at k key arms ≡ arm_at k key start

  score_all-Each :
      (names : List String) (d : Dict F) (arms : Arms)
      → All (λ n. contains n all ≡ true) names
      → IsSame arms
      → Each fl IsScored d
      → Each fl IsScored (score_all fl c total names key d arms).0
  unfolding score_all
  score_all-Each [] d arms m s e = e
  score_all-Each (n ∷ names) d arms (m, ms) s e =
      score_all-Each names _ (ensure_arm n key arms).1 ms
        (λ k. arm_at-ensure_arm n key k key arms ∙ s k)
        (put-Each fl IsScored n _ d
          (m, ap (ucb1_score fl c total) (ensure_arm-arm_at n key arms ∙ s n)) e)

  next :
      (u n : String) (names : List String) (d : Dict F) (x : F)
      → is_untried u ≡ true
      → x ≡ ucb1_score fl c total (arm_at n key start)
      → (contains u (n ∷ names) ≡ true) ⊎ (get u d ≡ some inf)
      → (contains u names ≡ true) ⊎ (get u (put n x d) ≡ some inf)
  next u n names d x h e m = elim (Bool-cases (str_eq n u)) [
    | inl t ↦
        let same = (eq_iff n u).0 t in
        let infinite : x ≡ inf =
          e ∙ untried_score (arm_at n key start) (subst (λ k. is_untried k ≡ true) (sym same) h) in
        inr (get-put n u x d ∙ ap (λ b. if b then some x else get u d) t ∙ ap some infinite)
    | inr t ↦ elim m [
      | inl l ↦ inl (sym (ap (λ b. b || contains u names) t) ∙ l)
      | inr g ↦ inr (get-put n u x d ∙ ap (λ b. if b then some x else get u d) t ∙ g)
    ]
  ]

  score_all-get :
      (u : String) (names : List String) (d : Dict F) (arms : Arms)
      → is_untried u ≡ true
      → IsSame arms
      → (contains u names ≡ true) ⊎ (get u d ≡ some inf)
      → get u (score_all fl c total names key d arms).0 ≡ some inf
  unfolding score_all
  score_all-get u [] d arms h s (inl m) = cc m
  score_all-get u [] d arms h s (inr g) = g
  score_all-get u (n ∷ names) d arms h s m =
      score_all-get u names _ (ensure_arm n key arms).1 h
        (λ k. arm_at-ensure_arm n key k key arms ∙ s k)
        (next u n names d (ucb1_score fl c total (ensure_arm n key arms).0) h
          (ap (ucb1_score fl c total) (ensure_arm-arm_at n key arms ∙ s n)) m)

  get-HasInf : (u : String) (d : Dict F) → get u d ≡ some inf → HasInf fl d
  unfolding get
  get-HasInf u [] g = cc g
  get-HasInf u ((k, x) ∷ d) g = elim (Bool-cases (str_eq k u)) [
    | inl t ↦
        let found : some x ≡ some inf = sym (ap (λ b. if b then some x else get u d) t) ∙ g in
        inl (cc found)
    | inr t ↦ inr (get-HasInf u d (sym (ap (λ b. if b then some x else get u d) t) ∙ g))
  ]

  best_untried :
      (d : Dict F)
      → Each fl IsScored d
      → HasInf fl d
      → (x : String) × (best fl d ≡ some x) × (contains x all ≡ true) × (is_untried x ≡ true)
  best_untried [] e i = absurd i
  best_untried ((k, x) ∷ d) (p, e) i =
      let top = best_pair fl (k, x) d in
      let own = best_pair-Each fl IsScored (k, x) d p e in
      let infinite =
        best_pair-inf fl fin.less_inf (k, x) d (IsScored-IsBelow k x p) (Each-IsBelow d e) i in
      (
        top.0,
        ap some (best_from-best_pair fl (k, x) d),
        own.0,
        untried_of_inf top.0 top.1 own infinite,
      )

score_all-arm_at :
    (fl : Floats) (c : fl.F) (total : ℕ) (names : List String) (key k : String) (d : Dict fl.F)
    (arms : Arms)
    → arm_at k key (score_all fl c total names key d arms).1 ≡ arm_at k key arms
unfolding score_all
score_all-arm_at fl c total [] key k d arms = refl
score_all-arm_at fl c total (n ∷ names) key k d arms =
    score_all-arm_at fl c total names key k _ (ensure_arm n key arms).1
    ∙ arm_at-ensure_arm n key k key arms

-- A selection only creates arms that were not there.
pub ucb1_select-arm_at :
    (fl : Floats) (c : fl.F) (names : List String) (context : Option String) (arms : Arms)
    (k : String)
    → arm_at k (context_key_of context) (ucb1_select fl c names context arms).1
      ≡ arm_at k (context_key_of context) arms
unfolding ucb1_select
ucb1_select-arm_at fl c [] context arms k = refl
ucb1_select-arm_at fl c (n ∷ names) context arms k =
    let key = context_key_of context in
    score_all-arm_at fl c (total_pulls key arms) (n ∷ names) key k [] arms

IsSubset : (all names : List String) → Type 0
IsSubset all names = All (λ n. contains n all ≡ true) names

IsSubset-weaken :
    (n : String) (all names : List String) → IsSubset all names → IsSubset (n ∷ all) names
unfolding IsSubset
IsSubset-weaken n all [] h = tt
IsSubset-weaken n all (m ∷ names) (h, hs) = (ground (arith, h), IsSubset-weaken n all names hs)

IsSubset-self : (names : List String) → IsSubset names names
unfolding IsSubset
IsSubset-self [] = tt
IsSubset-self (n ∷ names) =
    (ground (arith, eq_iff n n), IsSubset-weaken n names names (IsSubset-self names))

-- If a candidate has not been pulled in the context, UCB1 picks a candidate that has not been pulled
-- in it, whatever the scores of the others.
pub ucb1_select_untried :
    (fl : Floats) (c : fl.F) (fin : IsFinite fl c) (names : List String) (context : Option String)
    (arms : Arms) (u : String)
    → contains u names ≡ true
    → ((arm_at u (context_key_of context) arms).pulls == 0) ≡ true
    → (x : String) × ((ucb1_select fl c names context arms).0.0 ≡ some x)
      × (contains x names ≡ true)
      × (((arm_at x (context_key_of context) arms).pulls == 0) ≡ true)
unfolding ucb1_select IsSubset
ucb1_select_untried fl c fin [] context arms u m h = cc m
ucb1_select_untried fl c fin (name ∷ names) context arms u m h =
    let key = context_key_of context in
    let total = total_pulls key arms in
    let all = name ∷ names in
    let d = (score_all fl c total all key [] arms).0 in
    best_untried fl c fin total all key arms d
      (score_all-Each fl c fin total all key arms all [] arms (IsSubset-self all) (λ k. refl) tt)
      (get-HasInf fl c fin total all key arms u d
        (score_all-get fl c fin total all key arms u all [] arms h (λ k. refl) (inl m)))
