-- ===== src/Base/Text/Laws.antt =====
-- What stripping, partitioning and splitting make of texts that hold no separator.
use Prim.Native.Char.{Char, code}
use Prim.Native.String.{String, [], ◌∷◌, ◌++◌ as ◌<>◌}
use Prim.Native.Nat.{ℕ}
use mathlib.Core.Bool.{true, false}
use mathlib.Core.List.{List}
use mathlib.Core.Path.{◌≡◌, refl, sym, ◌∙◌}
use native.Mathlib.Omega.{arith}
use mathlib.Core.Logic.{◌≢◌}
use text.Mathlib.TextLemmas.{nil-append, cons-append, append-nil, cons-ne-nil}
use primal_core.Base.Text.{
  is_space, lstrip, rstrip, strip, partition, split, onto_first, lacks, starts_bare, ends_bare,
}

lstrip_bare : (s : String) → starts_bare s ≡ true → lstrip s ≡ s
unfolding lstrip
lstrip_bare [] h = refl
lstrip_bare (c ∷ s) h = ground arith

rstrip_bare : (s : String) → ends_bare s ≡ true → rstrip s ≡ s
unfolding rstrip
rstrip_bare [] h = refl
rstrip_bare (c ∷ []) h = ground arith
rstrip_bare (c ∷ d ∷ s) h = rw (rstrip_bare (d ∷ s) h)

pub strip_bare : (s : String) → starts_bare s ≡ true → ends_bare s ≡ true → strip s ≡ s
unfolding strip
strip_bare s h k = rw (lstrip_bare s h) (rstrip_bare s k)

pub partition-lacks :
    (sep : ℕ) (a b : String)
    → lacks sep a ≡ true
    → partition sep (a <> b) ≡ (a <> (partition sep b).0, (partition sep b).1, (partition sep b).2)
unfolding partition
partition-lacks sep [] b h = rw (nil-append, nil-append)
partition-lacks sep (c ∷ a) b h =
    rw (cons-append, cons-append) (ground (arith, partition-lacks sep a b))

onto_first_cons :
    (c : Char) (a : String) (parts : List String)
    → onto_first (c ∷ []) (onto_first a parts) ≡ onto_first (c ∷ a) parts
onto_first_cons c a List.[] = rw (cons-append, nil-append)
onto_first_cons c a (List.◌∷◌ t ts) = rw (cons-append, nil-append, cons-append)

onto_first_nil : (parts : List String) → parts ≢ List.[] → onto_first [] parts ≡ parts
onto_first_nil List.[] h = absurd (h refl)
onto_first_nil (List.◌∷◌ t ts) h = rw nil-append

onto_first-ne-nil : (s : String) (parts : List String) → onto_first s parts ≢ List.[]
onto_first-ne-nil s List.[] = λ e. cc
onto_first-ne-nil s (List.◌∷◌ t ts) = λ e. cc

split-ne-nil : (sep : ℕ) (b : String) → split sep b ≢ List.[]
unfolding split
split-ne-nil sep [] = λ e. cc
split-ne-nil sep (c ∷ b) = λ e. ground (arith, onto_first-ne-nil (c ∷ []) (split sep b))

pub split-lacks :
    (sep : ℕ) (a b : String) → lacks sep a ≡ true → split sep (a <> b) ≡ onto_first a (split sep b)
unfolding split
split-lacks sep [] b h = rw nil-append (sym (onto_first_nil (split sep b) (split-ne-nil sep b)))
split-lacks sep (c ∷ a) b h =
    rw cons-append (ground (arith, split-lacks sep a b, onto_first_cons c a (split sep b)))

module _ (c : Char) (a : String) (h : lacks (code c) a ≡ true) where
  pub partition_join : (b : String) → partition (code c) (a <> (c ∷ b)) ≡ (a, true, b)
  unfolding partition
  partition_join b = rw (partition-lacks (code c) a (c ∷ b) h) (ground (arith, append-nil a))

  pub split_join : (b : String) → split (code c) (a <> (c ∷ b)) ≡ List.◌∷◌ a (split (code c) b)
  unfolding split
  split_join b = rw (split-lacks (code c) a (c ∷ b) h) (ground (arith, append-nil a))

  pub split_last : split (code c) a ≡ List.◌∷◌ a List.[]
  unfolding split
  split_last = rw (← append-nil a) (split-lacks (code c) a [] h)

ends_bare-cons : (d : Char) (s : String) → s ≢ [] → ends_bare (d ∷ s) ≡ ends_bare s
ends_bare-cons d [] h = absurd (h refl)
ends_bare-cons d (e ∷ s) h = refl

pub join-ne-nil : (a : String) (c : Char) (b : String) → a <> (c ∷ b) ≢ []
join-ne-nil [] c b = rw nil-append (cons-ne-nil c b)
join-ne-nil (d ∷ a) c b = rw cons-append (cons-ne-nil d (a <> (c ∷ b)))

pub lacks_join :
    (sep : ℕ) (a : String) (c : Char) (b : String)
    → lacks sep a ≡ true
    → lacks sep (c ∷ b) ≡ true
    → lacks sep (a <> (c ∷ b)) ≡ true
lacks_join sep [] c b h k = rw nil-append k
lacks_join sep (d ∷ a) c b h k = rw cons-append (ground (arith, lacks_join sep a c b))

-- The ends of two texts joined by a character that is no white space
module _ (c : Char) (bare : is_space (code c) ≡ false) where
  pub starts_bare_join : (a b : String) → starts_bare a ≡ true → starts_bare (a <> (c ∷ b)) ≡ true
  starts_bare_join [] b h = rw nil-append (ground arith)
  starts_bare_join (d ∷ a) b h = rw cons-append h

  ends_bare_after : (b : String) → ends_bare b ≡ true → ends_bare (c ∷ b) ≡ true
  ends_bare_after [] h = ground arith
  ends_bare_after (d ∷ b) h = h

  pub ends_bare_join : (a b : String) → ends_bare b ≡ true → ends_bare (a <> (c ∷ b)) ≡ true
  ends_bare_join [] b h = rw nil-append (ends_bare_after b h)
  ends_bare_join (d ∷ a) b h =
      rw cons-append (ends_bare-cons d (a <> (c ∷ b)) (join-ne-nil a c b) ∙ ends_bare_join a b h)
