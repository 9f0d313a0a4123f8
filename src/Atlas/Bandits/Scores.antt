-- ===== src/Atlas/Bandits/Scores.antt =====
-- Which arm UCB1 of src/primal_ai/atlas/bandit.py picks.
use primal_core.Base.{
  ℕ, ◌≡◌, refl, ap, ◌∙◌, sym, subst, ◌⊎◌, inl, inr, String, Bool, true, false, [], ◌∷◌, str_eq,
  eq_iff, if◌then◌else◌, ◌==◌, Bool-cases,
}
use primal_core.Base.Dict.{Dict, put}
use primal_core.Atlas.Bandits.{Floats, ArmState, best_from, ucb1_score}

-- What is assumed of floats: nothing is above infinity, and the score that is computed for an arm
-- with pulls is below it.
pub record IsFinite (fl : Floats) (c : fl.F) : Type 0 where
  pub less_inf : (x : fl.F) → fl.less fl.inf x ≡ false
  pub score_less :
      (total : ℕ) (arm : ArmState)
      → (arm.pulls == 0) ≡ false
      → fl.less (ucb1_score fl c total arm) fl.inf ≡ true

module _ (fl : Floats) where
  open fl use {F, less, inf}

  -- The pair that `max` picks
  abbrev pub louder : String × F → String × F → String × F
  louder s t = if less s.1 t.1 then t else s

  abbrev pub best_pair : String × F → Dict F → String × F
  best_pair s [] = s
  best_pair s (t ∷ scores) = best_pair (louder s t) scores

  pub best_from-best_pair :
      (s : String × F) (scores : Dict F) → best_from fl s scores ≡ (best_pair s scores).0
  best_from-best_pair s [] = refl
  best_from-best_pair s (t ∷ scores) = best_from-best_pair (louder s t) scores

  -- Every entry of the scores is a candidate with its own score.
  module _ (P : String → F → Type 0) where
    abbrev pub Each : Dict F → Type 0
    Each [] = Unit
    Each ((k, x) ∷ scores) = P k x × Each scores

    pub put-Each :
        (k : String) (x : F) (scores : Dict F) → P k x → Each scores → Each (put k x scores)
    unfolding put
    put-Each k x [] p e = (p, tt)
    put-Each k x ((j, y) ∷ scores) p (q, e) =
        let written = λ (b : Bool). if b then (j, x) ∷ scores else (j, y) ∷ put k x scores in
        elim (Bool-cases (str_eq j k)) [
          | inl t ↦
              subst Each (sym (ap written t)) (subst (λ i. P i x) (sym ((eq_iff j k).0 t)) p, e)
          | inr t ↦ subst Each (sym (ap written t)) (q, put-Each k x scores p e)
        ]

    louder-Each :
        (b : Bool) (s t : String × F)
        → P s.0 s.1
        → P t.0 t.1
        → P (if b then t else s).0 (if b then t else s).1
    louder-Each true s t p q = q
    louder-Each false s t p q = p

    pub best_pair-Each :
        (s : String × F) (scores : Dict F)
        → P s.0 s.1
        → Each scores
        → P (best_pair s scores).0 (best_pair s scores).1
    best_pair-Each s [] p e = p
    best_pair-Each s (t ∷ scores) p (q, e) =
        best_pair-Each (louder s t) scores (louder-Each (less s.1 t.1) s t p q) e

  -- With an infinite score among the entries the largest is infinite.
  abbrev pub HasInf : Dict F → Type 0
  HasInf [] = ⊥
  HasInf ((k, x) ∷ scores) = (x ≡ inf) ⊎ HasInf scores

  -- An entry is infinite or below infinity.
  abbrev pub IsBelow : String → F → Type 0
  IsBelow k x = (x ≡ inf) ⊎ (less x inf ≡ true)

  module _ (top : (x : F) → less inf x ≡ false) where
    louder_inf : (s t : String × F) → IsBelow s.0 s.1 → t.1 ≡ inf → (louder s t).1 ≡ inf
    louder_inf s t (inl same) e = elim (Bool-cases (less s.1 t.1)) [
      | inl b ↦ ap (λ b. (if b then t else s).1) b ∙ e
      | inr b ↦ ap (λ b. (if b then t else s).1) b ∙ same
    ]
    louder_inf s t (inr below) e = ap (λ b. (if b then t else s).1) (ap (less s.1) e ∙ below) ∙ e

    inf_louder : (s t : String × F) → s.1 ≡ inf → (louder s t).1 ≡ inf
    inf_louder s t e = ap (λ b. (if b then t else s).1) (ap (λ x. less x t.1) e ∙ top t.1) ∙ e

    pub best_pair-inf :
        (s : String × F) (scores : Dict F)
        → IsBelow s.0 s.1
        → Each IsBelow scores
        → (s.1 ≡ inf) ⊎ HasInf scores
        → (best_pair s scores).1 ≡ inf
    best_pair-inf s [] b e (inl i) = i
    best_pair-inf s [] b e (inr i) = absurd i
    best_pair-inf s (t ∷ scores) b (q, e) (inl i) =
        best_pair-inf (louder s t) scores (louder-Each IsBelow (less s.1 t.1) s t b q) e
          (inl (inf_louder s t i))
    best_pair-inf s (t ∷ scores) b (q, e) (inr (inl i)) =
        best_pair-inf (louder s t) scores (louder-Each IsBelow (less s.1 t.1) s t b q) e
          (inl (louder_inf s t b i))
    best_pair-inf s (t ∷ scores) b (q, e) (inr (inr i)) =
        best_pair-inf (louder s t) scores (louder-Each IsBelow (less s.1 t.1) s t b q) e (inr i)
