-- ===== src/Guardian/Dsl/Factories/Pipes.antt =====
-- Lists of values in the arguments of src/primal_ai/guardian/_builtins, written with `|` between
-- them.
use primal_core.Base.{
  String, ◌<>◌, true, false, some, List, [], ◌∷◌, All, returned, ◌≡◌, refl, ◌∙◌, arith, str_eq,
  eq_iff,
}
use primal_core.Base.Text.{is_space, split, lacks}
use primal_core.Base.Text.Laws.{
  strip_bare, split_join, split_last, starts_bare_join, ends_bare_join, join-ne-nil, lacks_join,
}
use primal_core.Base.Dict.{Dict, get, put}
use primal_core.Guardian.Dsl.{parse_policy, register_policy}
use primal_core.Guardian.Dsl.RoundTrip.{
  IsBare, IsPair, format_kv, parse_kv-format_kv, parse_policy-format_kv,
}
use primal_core.Guardian.Dsl.Factories.{
  Conversions, allow_list, stripped, split_pipe, allow_list_factory, builtins,
}

-- Values with pipes between them
abbrev pub join_pipe : String → List String → String
join_pipe v [] = v
join_pipe v (w ∷ vs) = v <> String.◌∷◌ "|" (join_pipe w vs)

-- A value that is read back as it is
abbrev pub IsValue : String → Type 0
IsValue v = IsBare v × (lacks b'|' v ≡ true) × (str_eq v "" ≡ false)

IsBare-join_pipe : (v : String) (vs : List String) → All IsValue (v ∷ vs) → IsBare (join_pipe v vs)
unfolding is_space
IsBare-join_pipe v [] ((b, l, n), hs) = b
IsBare-join_pipe v (w ∷ vs) (((b, e, c), l, n), hs) =
    let (b', e', c') = IsBare-join_pipe w vs hs in
    (
      starts_bare_join "|" refl v (join_pipe w vs) b,
      ends_bare_join "|" refl v (join_pipe w vs) e',
      lacks_join b',' v "|" (join_pipe w vs) c c',
    )

stripped-split :
    (v : String) (vs : List String)
    → All IsValue (v ∷ vs)
    → stripped (split b'|' (join_pipe v vs)) ≡ v ∷ vs
unfolding stripped
stripped-split v [] (((b, e, c), l, n), hs) = rw (split_last "|" v l) (rw (strip_bare v b e, n))
stripped-split v (w ∷ vs) (((b, e, c), l, n), hs) =
    rw (split_join "|" v l (join_pipe w vs)) (rw (strip_bare v b e, n, stripped-split w vs hs))

join_pipe-ne-nil :
    (v : String) (vs : List String) → str_eq v "" ≡ false → str_eq (join_pipe v vs) "" ≡ false
join_pipe-ne-nil v [] n = n
join_pipe-ne-nil v (w ∷ vs) n =
    ground (arith, eq_iff (join_pipe v (w ∷ vs)) "", join-ne-nil v "|" (join_pipe w vs))

-- `_split_pipe` reads back a list of values that are not empty, do not begin or end with white
-- space and have no comma and no pipe.
pub split_pipe-join_pipe :
    (v : String) (vs : List String)
    → All IsValue (v ∷ vs)
    → split_pipe (some (join_pipe v vs)) ≡ some (v ∷ vs)
unfolding split_pipe
split_pipe-join_pipe v vs h = rw (join_pipe-ne-nil v vs h.0.2) (rw (stripped-split v vs h))

abbrev spec_pairs : String → List String → String → List String → Dict String
spec_pairs t ts d ds = ("tools", join_pipe t ts) ∷ ("domains", join_pipe d ds) ∷ []

IsPair-pairs :
    (t : String) (ts : List String) (d : String) (ds : List String)
    → All IsValue (t ∷ ts)
    → All IsValue (d ∷ ds)
    → All IsPair (spec_pairs t ts d ds)
unfolding is_space
IsPair-pairs t ts d ds h k = (
  ((refl, refl, refl), IsBare-join_pipe t ts h, refl),
  (((refl, refl, refl), IsBare-join_pipe d ds k, refl), tt),
)

-- What the factory makes of the pairs
allow_list_factory-pairs :
    (t : String) (ts : List String) (d : String) (ds : List String)
    → All IsValue (t ∷ ts)
    → All IsValue (d ∷ ds)
    → allow_list_factory (format_kv (spec_pairs t ts d ds))
      ≡ returned (allow_list (some (t ∷ ts)) (some (d ∷ ds)))
unfolding allow_list_factory get put
allow_list_factory-pairs t ts d ds h k =
    rw (parse_kv-format_kv (spec_pairs t ts d ds) (IsPair-pairs t ts d ds h k))
      (rw (split_pipe-join_pipe t ts h, split_pipe-join_pipe d ds k))

-- The text `allow_list:tools=T1|T2|...,domains=D1|D2|...`
abbrev pub allow_list_spec : String → List String → String → List String → String
allow_list_spec t ts d ds = "allow_list" <> String.◌∷◌ ":" (format_kv (spec_pairs t ts d ds))

-- The specification `allow_list:tools=T1|T2|...,domains=D1|D2|...` builds, from the registered
-- factories, the `AllowList` of those tools and domains, whatever they are as long as none is
-- empty, begins or ends with white space or has a comma or a pipe in it.
pub parse_policy-allow_list_spec :
    (cv : Conversions) (t : String) (ts : List String) (d : String) (ds : List String)
    → All IsValue (t ∷ ts)
    → All IsValue (d ∷ ds)
    → parse_policy (builtins cv) (allow_list_spec t ts d ds)
      ≡ returned (allow_list (some (t ∷ ts)) (some (d ∷ ds)))
unfolding builtins register_policy
parse_policy-allow_list_spec cv t ts d ds h k =
    let pairs = IsPair-pairs t ts d ds h k in
    parse_policy-format_kv (builtins cv) "allow_list" allow_list_factory (spec_pairs t ts d ds) refl
      refl refl refl pairs
    ∙ allow_list_factory-pairs t ts d ds h k
