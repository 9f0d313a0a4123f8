-- ===== src/Base/Text.antt =====
-- The methods of Python's `str` that the policy DSL calls: `strip`, `partition` and `split` on one
-- character, on the code points of a text.
pub mod Laws
use Prim.Native.Char.{Char, code}
use Prim.Native.String.{String, [], ◌∷◌, ◌++◌ as ◌<>◌}
use Prim.Native.Nat.{ℕ}
use mathlib.Core.Bool.{Bool, true, false, not, ◌&&◌, ◌||◌}
use mathlib.Core.List.{List}
use primal_core.Base.Tests.{◌==◌, leb, if◌then◌else◌}

-- The white space of `str.strip`
unfoldable pub is_space : ℕ → Bool
is_space c =
    (leb 9 c && leb c 13)
    || (leb 28 c && leb c 32)
    || c == 133
    || c == 160
    || c == 5760
    || (leb 8192 c && leb c 8202)
    || c == 8232
    || c == 8233
    || c == 8239
    || c == 8287
    || c == 12288

unfoldable pub lstrip : String → String
unfolding is_space
lstrip [] = []
lstrip (c ∷ s) = let rest = lstrip s in if is_space (code c) then rest else c ∷ s

-- The character goes if it is white space and nothing is left behind it.
abbrev pub before_rest : Char → String → String
before_rest c [] = if is_space (code c) then [] else c ∷ []
before_rest c (d ∷ s) = c ∷ d ∷ s

unfoldable pub rstrip : String → String
unfolding is_space
rstrip [] = []
rstrip (c ∷ s) = before_rest c (rstrip s)

unfoldable pub strip : String → String
unfolding lstrip rstrip
strip s = rstrip (lstrip s)

-- `s.partition(sep)`, with whether the separator was found
unfoldable pub partition : ℕ → String → String × Bool × String
partition sep [] = ([], false, [])
partition sep (c ∷ s) =
    let (before, found, rest) = partition sep s in
    if code c == sep then ([], true, s) else (c ∷ before, found, rest)

abbrev pub onto_first : String → List String → List String
onto_first s List.[] = List.◌∷◌ s List.[]
onto_first s (List.◌∷◌ t ts) = List.◌∷◌ (s <> t) ts

-- `s.split(sep)`
unfoldable pub split : ℕ → String → List String
split sep [] = List.◌∷◌ [] List.[]
split sep (c ∷ s) =
    let parts = split sep s in
    if code c == sep then List.◌∷◌ [] parts else onto_first (c ∷ []) parts

-- No character of the text is the one given.
abbrev pub lacks : ℕ → String → Bool
lacks sep [] = true
lacks sep (c ∷ s) = not (code c == sep) && lacks sep s

-- A text that does not begin, or end, with white space
abbrev pub starts_bare : String → Bool
starts_bare [] = true
starts_bare (c ∷ s) = not (is_space (code c))

abbrev pub ends_bare : String → Bool
ends_bare [] = true
ends_bare (c ∷ []) = not (is_space (code c))
ends_bare (c ∷ d ∷ s) = ends_bare (d ∷ s)
