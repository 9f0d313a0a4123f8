-- ===== src/Guardian/RateLimit/Refinement.antt =====
-- The trimming of `RateLimit.check_pre` changes no decision: at times that do not go back, the
-- policy decides as one that keeps every call it let through.
use primal_core.Base.{
  ℕ, ◌+◌, ◌≤◌, ◌<◌, ◌≡◌, refl, ap, ◌∙◌, Bool, true, false, Option, none, some, List, [], ◌∷◌, ◌++◌,
  ltb, if◌then◌else◌, arith, is_none, inl, inr, Option-cases, sym, subst, ap,
}
use mathlib.Core.List.{append_assoc}
use mathlib.Core.Option.{some-injective}
use primal_core.Guardian.RateLimit.{
  init, RateLimit, windows, oldest_relevant_window, popleft_before, count_since, first_full, trim,
  check_pre, check_all,
}

-- The limits on the whole history of calls let through: every configured window has room.
abbrev pub has_room : ℕ → List ℕ → List (ℕ × Option ℕ) → Bool
has_room now history ws = is_none (first_full now history ws)

-- The policy without trimming.
unfoldable pub decide_all : List (ℕ × Option ℕ) → List ℕ → List ℕ → List Bool
decide_all ws [] history = []
decide_all ws (t ∷ ts) history =
    let rest = decide_all ws ts in
    if has_room t history ws then true ∷ rest (history ++ t ∷ []) else false ∷ rest history

-- Times that do not go back, from `start` on.
abbrev pub Ascends : ℕ → List ℕ → Type 0
Ascends start [] = Unit
Ascends start (t ∷ ts) = (start ≤ t) × Ascends t ts

pub count_since-append :
    (now w : ℕ) (xs ys : List ℕ)
    → count_since now w (xs ++ ys) ≡ count_since now w xs + count_since now w ys
unfolding count_since
count_since-append now w [] ys = omega arith
count_since-append now w (x ∷ xs) ys = ground (arith, count_since-append now w xs ys)

-- Calls that are out of a window, and stay out as time passes.
abbrev Gone : ℕ → ℕ → List ℕ → Type 0
Gone now w [] = Unit
Gone now w (t ∷ ts) = (t + w < now) × Gone now w ts

count_since-Gone :
    (now now' w w' : ℕ) (xs : List ℕ)
    → Gone now w xs
    → w' ≤ w
    → now ≤ now'
    → count_since now' w' xs ≡ 0
unfolding count_since
count_since-Gone now now' w w' [] g h k = refl
count_since-Gone now now' w w' (x ∷ xs) g h k =
    ground (arith, count_since-Gone now now' w w' xs g.1 h k)

Gone-later : (now now' w : ℕ) (xs : List ℕ) → now ≤ now' → Gone now w xs → Gone now' w xs
Gone-later now now' w [] h g = tt
Gone-later now now' w (x ∷ xs) h g = (omega arith, Gone-later now now' w xs h g.1)

Gone-append : (now w : ℕ) (xs ys : List ℕ) → Gone now w xs → Gone now w ys → Gone now w (xs ++ ys)
Gone-append now w [] ys g h = h
Gone-append now w (x ∷ xs) ys g h = (g.0, Gone-append now w xs ys g.1 h)

-- What `popleft` takes off.
taken : ℕ → ℕ → List ℕ → List ℕ
taken now w [] = []
taken now w (t ∷ ts) = let rest = taken now w ts in if ltb (t + w) now then t ∷ rest else []

taken_splits : (now w : ℕ) (xs : List ℕ) → xs ≡ taken now w xs ++ popleft_before now w xs
unfolding taken popleft_before
taken_splits now w [] = refl
taken_splits now w (x ∷ xs) = ground (arith, taken_splits now w xs)

taken-Gone : (now w : ℕ) (xs : List ℕ) → Gone now w (taken now w xs)
unfolding taken
taken-Gone now w [] = tt
taken-Gone now w (x ∷ xs) = ground (arith, taken-Gone now w xs)

-- How the calls that the policy keeps stand to the history: what it has dropped is out of its
-- longest window.
record Stands (now : ℕ) (r : RateLimit) (history : List ℕ) : Type 0 where
  dropped : List ℕ
  splits : history ≡ dropped ++ r.calls
  gone : (w : ℕ) → oldest_relevant_window r ≡ some w → Gone now w dropped

abbrev limits : Option ℕ → Option ℕ → Option ℕ → List ℕ → RateLimit
limits s m h cs = record { per_second = s; per_minute = m; per_hour = h; calls = cs }

same_count :
    (now w w' : ℕ) (xs ys : List ℕ)
    → Gone now w xs
    → w' ≤ w
    → count_since now w' (xs ++ ys) ≡ count_since now w' ys
same_count now w w' xs ys g h =
    omega (arith, count_since-append now w' xs ys, count_since-Gone now now w w' xs g h)

same_room :
    (now : ℕ) (s m h : Option ℕ) (xs cs : List ℕ)
    → ((w : ℕ) → oldest_relevant_window (limits s m h cs) ≡ some w → Gone now w xs)
    → has_room now (xs ++ cs) (windows (limits s m h cs))
      ≡ has_room now cs (windows (limits s m h cs))
unfolding first_full oldest_relevant_window
same_room now s m (some n) xs cs g =
    let out = g 3600000 refl in
    ground (
      arith,
      same_count now 3600000 1000 xs cs out,
      same_count now 3600000 60000 xs cs out,
      same_count now 3600000 3600000 xs cs out,
    )
same_room now s (some n) none xs cs g =
    let out = g 60000 refl in
    ground (arith, same_count now 60000 1000 xs cs out, same_count now 60000 60000 xs cs out)
same_room now (some n) none none xs cs g =
    ground (arith, same_count now 1000 1000 xs cs (g 1000 refl))
same_room now none none none xs cs g = refl

same_window :
    (r : RateLimit) (cs : List ℕ)
    → oldest_relevant_window (record r { calls = cs }) ≡ oldest_relevant_window r
unfolding oldest_relevant_window
same_window r cs = refl

same_windows : (now : ℕ) (r : RateLimit) → windows (trim now r) ≡ windows r
unfolding trim
same_windows now r = elim (Option-cases (oldest_relevant_window r)) [
  | inl off ↦ rw (off, trim) refl
  | inr (w, on) ↦ rw (on, trim) refl
]

-- Taking off what is out of the longest window.
popleft-Stands :
    (start now w : ℕ) (r : RateLimit) (history : List ℕ)
    → start ≤ now
    → oldest_relevant_window r ≡ some w
    → Stands start r history
    → Stands now (record r { calls = popleft_before now w r.calls }) history
popleft-Stands start now w r history h on s = record {
  dropped = s.dropped ++ taken now w r.calls;
  splits =
      s.splits
      ∙ ap (λ q. s.dropped ++ q) (taken_splits now w r.calls)
      ∙ sym (append_assoc s.dropped (taken now w r.calls) (popleft_before now w r.calls));
  gone = λ w' e.
      let same : w ≡ w' = some-injective w w' (sym on ∙ sym (same_window r _) ∙ e) in
      subst (λ v. Gone now v (s.dropped ++ taken now w r.calls)) same
        (Gone-append now w s.dropped (taken now w r.calls)
          (Gone-later start now w s.dropped h (s.gone w on)) (taken-Gone now w r.calls));
}

trim-Stands :
    (start now : ℕ) (r : RateLimit) (history : List ℕ)
    → start ≤ now
    → Stands start r history
    → Stands now (trim now r) history
unfolding trim
trim-Stands start now r history h s = elim (Option-cases (oldest_relevant_window r)) [
  | inl off ↦
      rw (off, trim)
        (record {
          dropped = s.dropped;
          splits = s.splits;
          gone = λ w e. Gone-later start now w s.dropped h (s.gone w e);
        })
  | inr (w, on) ↦ rw (on, trim) (popleft-Stands start now w r history h on s)
]

-- One more call, kept.
snoc-Stands :
    (now t : ℕ) (r : RateLimit) (history : List ℕ)
    → Stands now r history
    → Stands now (record r { calls = r.calls ++ t ∷ [] }) (history ++ t ∷ [])
snoc-Stands now t r history s = record {
  dropped = s.dropped;
  splits = ap (λ q. q ++ t ∷ []) s.splits ∙ append_assoc s.dropped r.calls (t ∷ []);
  gone = λ w e. s.gone w (sym (same_window r _) ∙ e);
}

trimmed_room :
    (now : ℕ) (r : RateLimit) (history : List ℕ)
    → Stands now r history
    → has_room now history (windows r) ≡ has_room now r.calls (windows r)
trimmed_room now r history s =
    ap (λ q. has_room now q (windows r)) s.splits
    ∙ same_room now r.per_second r.per_minute r.per_hour s.dropped r.calls s.gone

-- At times that do not go back, `check_pre` lets through exactly the calls that the policy without
-- trimming lets through, which counts in the whole history.
check_all-decide_all :
    (ts : List ℕ) (start : ℕ) (r : RateLimit) (history : List ℕ)
    → Ascends start ts
    → Stands start r history
    → check_all ts r ≡ decide_all (windows r) ts history
unfolding check_all decide_all check_pre
check_all-decide_all [] start r history up s = refl
check_all-decide_all (t ∷ ts) start r history up s =
    let kept = trim-Stands start t r history up.0 s in
    let room = trimmed_room t (trim t r) history kept in
    let same = same_windows t r in
    elim (Option-cases (first_full t (trim t r).calls (windows (trim t r)))) [
      | inl free ↦
          let open_ : has_room t history (windows r) ≡ true =
            subst (λ ws. has_room t history ws ≡ true) same (room ∙ ap is_none free) in
          let r' : RateLimit = record (trim t r) { calls = (trim t r).calls ++ t ∷ [] } in
          rw (free, open_, check_all, check_pre, decide_all)
            (ap (λ q. true ∷ q)
              (check_all-decide_all ts t r' (history ++ t ∷ []) up.1
                  (snoc-Stands t t (trim t r) history kept)
                ∙ ap (λ ws. decide_all ws ts (history ++ t ∷ [])) same))
      | inr (v, full) ↦
          let shut : has_room t history (windows r) ≡ false =
            subst (λ ws. has_room t history ws ≡ false) same (room ∙ ap is_none full) in
          rw (full, shut, check_all, check_pre, decide_all)
            (ap (λ q. false ∷ q)
              (check_all-decide_all ts t (trim t r) history up.1 kept
                ∙ ap (λ ws. decide_all ws ts history) same))
    ]

init-Stands : (s m h : Option ℕ) → Stands 0 (init s m h) []
unfolding init
init-Stands s m h = record { dropped = []; splits = refl; gone = λ w e. tt }

-- Of calls at times that do not go back, a new `RateLimit` lets through exactly those that a policy
-- lets through which never forgets one and counts in its whole history: `popleft` changes no
-- decision, whichever of the three limits are configured.
pub init-decide_all :
    (s m h : Option ℕ) (ts : List ℕ)
    → Ascends 0 ts
    → check_all ts (init s m h) ≡ decide_all (windows (init s m h)) ts []
init-decide_all s m h ts up = check_all-decide_all ts 0 (init s m h) [] up (init-Stands s m h)
