-- ===== src/Guardian/RateLimit/Bound.antt =====
-- No window of a `RateLimit` ever holds more calls than its limit.
use primal_core.Base.{
  ℕ, ◌≤◌, ◌<◌, ◌≡◌, Bool, true, Option, none, some, List, [], ◌∷◌, ◌++◌, if◌then◌else◌, arith, All,
  ◌⊎◌, inl, inr, Bool-cases, sym, subst,
}
use mathlib.Core.List.{append_assoc, append-nil}
use mathlib.Core.Option.{some-injective}
use primal_core.Guardian.RateLimit.{init, windows, count_since, first_full, check_all}
use primal_core.Guardian.RateLimit.Refinement.{
  has_room, decide_all, Ascends, count_since-append, init-decide_all,
}

-- The window `w` has the limit `limit`.
abbrev pub IsLimited : ℕ → ℕ → List (ℕ × Option ℕ) → Type 0
IsLimited w limit [] = ⊥
IsLimited w limit ((w', o) ∷ ws) = ((w ≡ w') × (o ≡ some limit)) ⊎ IsLimited w limit ws

-- The times at which a decision let a call through.
unfoldable pub let_through : List Bool → List ℕ → List ℕ
let_through [] ts = []
let_through (b ∷ bs) [] = []
let_through (b ∷ bs) (t ∷ ts) = let rest = let_through bs ts in if b then t ∷ rest else rest

has_room-below :
    (now w limit : ℕ) (history : List ℕ) (ws : List (ℕ × Option ℕ))
    → IsLimited w limit ws
    → has_room now history ws ≡ true
    → count_since now w history < limit
unfolding first_full
has_room-below now w limit history [] i room = elim i [ ]
has_room-below now w limit history ((w', none) ∷ ws) (inl (e, f)) room = ground arith
has_room-below now w limit history ((w', none) ∷ ws) (inr i) room =
    has_room-below now w limit history ws i room
has_room-below now w limit history ((w', some l) ∷ ws) (inl (e, f)) room =
    let same = some-injective l limit f in ground arith
has_room-below now w limit history ((w', some l) ∷ ws) (inr i) room =
    ground (arith, has_room-below now w limit history ws i)

count_since_later :
    (now now' w : ℕ) (xs : List ℕ) → now ≤ now' → count_since now' w xs ≤ count_since now w xs
unfolding count_since
count_since_later now now' w [] h = omega arith
count_since_later now now' w (x ∷ xs) h = ground (arith, count_since_later now now' w xs h)

count_since-singleton : (now w t : ℕ) → count_since now w (t ∷ []) ≤ 1
unfolding count_since
count_since-singleton now w t = ground arith

count_since-snoc :
    (now t w limit : ℕ) (xs : List ℕ)
    → t ≤ now
    → count_since t w xs < limit
    → count_since now w (xs ++ t ∷ []) ≤ limit
count_since-snoc now t w limit xs h below = omega (
  arith,
  count_since-append now w xs (t ∷ []),
  count_since-singleton now w t,
  count_since_later t now w xs h,
)

module _ (w limit : ℕ) (ws : List (ℕ × Option ℕ)) (limited : IsLimited w limit ws) where
  decide_all-bound :
      (ts : List ℕ) (start : ℕ) (history : List ℕ)
      → Ascends start ts
      → ((now : ℕ) → start ≤ now → count_since now w history ≤ limit)
      → (now : ℕ) → start ≤ now
      → All (λ t. t ≤ now) ts
      → count_since now w (history ++ let_through (decide_all ws ts history) ts) ≤ limit
  unfolding let_through decide_all
  decide_all-bound [] start history up h now a b =
      subst (λ q. count_since now w q ≤ limit) (sym (append-nil history)) (h now a)
  decide_all-bound (t ∷ ts) start history up h now a b = elim (Bool-cases (has_room t history ws)) [
    | inl free ↦
        let below = has_room-below t w limit history ws limited free in
        rw (free, decide_all)
          (subst (λ q. count_since now w q ≤ limit)
            (append_assoc history (t ∷ []) (let_through (decide_all ws ts (history ++ t ∷ [])) ts))
            (decide_all-bound ts t (history ++ t ∷ []) up.1
              (λ now' a'. count_since-snoc now' t w limit history a' below) now b.0 b.1))
    | inr full ↦
        rw (full, decide_all)
          (decide_all-bound ts t history up.1 (λ now' a'. h now' (omega arith)) now b.0 b.1)
  ]

count_since_nil : (now w limit : ℕ) → count_since now w [] ≤ limit
unfolding count_since
count_since_nil now w limit = omega arith

-- At times that do not go back, the calls that a new `RateLimit` has let through never exceed a
-- configured limit: at any later moment, at most `limit` of them lie in the window that ends there.
pub check_all-bound :
    (s m h : Option ℕ) (ts : List ℕ) (w limit now : ℕ)
    → Ascends 0 ts
    → IsLimited w limit (windows (init s m h))
    → All (λ t. t ≤ now) ts
    → count_since now w (let_through (check_all ts (init s m h)) ts) ≤ limit
check_all-bound s m h ts w limit now up limited past =
    subst (λ bs. count_since now w (let_through bs ts) ≤ limit) (sym (init-decide_all s m h ts up))
      (decide_all-bound w limit (windows (init s m h)) limited ts 0 [] up
        (λ now' a. count_since_nil now' w limit) now (omega arith) past)
