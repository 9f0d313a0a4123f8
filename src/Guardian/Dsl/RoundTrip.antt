-- ===== src/Guardian/Dsl/RoundTrip.antt =====
-- What `parse_kv` of src/primal_ai/guardian/_dsl.py reads of arguments written in its format.
use primal_core.Base.{
  String, ◌<>◌, Bool, true, false, List, [], ◌∷◌, All, ◌≡◌, refl, ap, ◌∙◌, Outcome, some, arith,
  str_eq, eq_iff,
}
use primal_core.Base.Dict.{Dict, get, put}
use primal_core.Base.Text.{is_space, strip, split, lacks, starts_bare, ends_bare}
use primal_core.Base.Text.Laws.{
  strip_bare, partition_join, split_join, split_last, starts_bare_join, ends_bare_join, join-ne-nil,
  lacks_join,
}
use primal_core.Guardian.Dsl.{
  Registry, build_policy, parse_policy, put_token, parse_parts, parse_kv,
}

-- One pair, and the pairs with commas between them
abbrev pub token : String × String → String
token (k, v) = k <> String.◌∷◌ "=" v

abbrev pub join_tokens : String × String → Dict String → String
join_tokens p [] = token p
join_tokens p (q ∷ kvs) = token p <> String.◌∷◌ "," (join_tokens q kvs)

abbrev pub format_kv : Dict String → String
format_kv [] = ""
format_kv (p ∷ kvs) = join_tokens p kvs

-- The pairs written one after the other into a dict
abbrev pub put_all : Dict String → Dict String → Dict String
put_all [] out = out
put_all ((k, v) ∷ kvs) out = put_all kvs (put k v out)

-- A text that is read back as it is: no white space at its ends, and no comma
abbrev pub IsBare : String → Type 0
IsBare s = (starts_bare s ≡ true) × (ends_bare s ≡ true) × (lacks b',' s ≡ true)

abbrev pub IsPair : String × String → Type 0
IsPair (k, v) = IsBare k × IsBare v × (lacks b'=' k ≡ true)

put_token-token :
    (k v : String) (out : Dict String) → IsPair (k, v) → put_token (token (k, v)) out ≡ put k v out
unfolding put_token
put_token-token k v out ((b, e, l), (b', e', l'), n) =
    rw (partition_join "=" k n v) (rw (strip_bare k b e, strip_bare v b' e'))

strip-token : (k v : String) → IsPair (k, v) → strip (token (k, v)) ≡ token (k, v)
unfolding is_space
strip-token k v ((b, e, l), (b', e', l'), n) =
    strip_bare (token (k, v)) (starts_bare_join "=" refl k v b) (ends_bare_join "=" refl k v e')

token-ne-nil : (k v : String) → str_eq (token (k, v)) "" ≡ false
token-ne-nil k v = ground (arith, eq_iff (token (k, v)) "", join-ne-nil k "=" v)

token-lacks : (k v : String) → IsPair (k, v) → lacks b',' (token (k, v)) ≡ true
token-lacks k v ((b, e, l), (b', e', l'), n) = lacks_join b',' k "=" v l l'

-- One part of the text, given what is left
parse_parts-token :
    (k v : String) (parts : List String) (out : Dict String)
    → IsPair (k, v)
    → parse_parts (token (k, v) ∷ parts) out ≡ parse_parts parts (put k v out)
unfolding parse_parts
parse_parts-token k v parts out h =
    rw (strip-token k v h, token-ne-nil k v, put_token-token k v out h)

parse_parts-nil : (out : Dict String) → parse_parts [] out ≡ out
unfolding parse_parts
parse_parts-nil out = refl

split-join_tokens :
    (p : String × String) (kvs : Dict String) (out : Dict String)
    → All IsPair (p ∷ kvs)
    → parse_parts (split b',' (join_tokens p kvs)) out ≡ put_all (p ∷ kvs) out
split-join_tokens (k, v) [] out (h, hs) =
    rw (split_last "," (token (k, v)) (token-lacks k v h))
      (parse_parts-token k v [] out h ∙ parse_parts-nil (put k v out))
split-join_tokens (k, v) (q ∷ kvs) out (h, hs) =
    rw (split_join "," (token (k, v)) (token-lacks k v h) (join_tokens q kvs)) (
      parse_parts-token k v (split b',' (join_tokens q kvs)) out h
      ∙ split-join_tokens q kvs (put k v out) hs)

join_tokens-ne-nil :
    (p : String × String) (kvs : Dict String) → str_eq (join_tokens p kvs) "" ≡ false
join_tokens-ne-nil (k, v) [] = token-ne-nil k v
join_tokens-ne-nil p (q ∷ kvs) =
    ground
      (arith, eq_iff (join_tokens p (q ∷ kvs)) "", join-ne-nil (token p) "," (join_tokens q kvs))

-- `parse_kv` reads back the pairs of a text in its format, a later value of a key replacing an
-- earlier one, if no key or value begins or ends with white space or has a comma, and no key has
-- an equals sign.
pub parse_kv-format_kv :
    (kvs : Dict String) → All IsPair kvs → parse_kv (format_kv kvs) ≡ put_all kvs []
unfolding parse_kv
parse_kv-format_kv [] h = refl
parse_kv-format_kv (p ∷ kvs) h = rw (join_tokens-ne-nil p kvs) (split-join_tokens p kvs [] h)

starts_bare-token : (k v : String) → IsPair (k, v) → starts_bare (token (k, v)) ≡ true
unfolding is_space
starts_bare-token k v ((b, e, l), (b', e', l'), n) = starts_bare_join "=" refl k v b

ends_bare-token : (k v : String) → IsPair (k, v) → ends_bare (token (k, v)) ≡ true
unfolding is_space
ends_bare-token k v ((b, e, l), (b', e', l'), n) = ends_bare_join "=" refl k v e'

starts_bare-join_tokens :
    (p : String × String) (kvs : Dict String)
    → All IsPair (p ∷ kvs)
    → starts_bare (join_tokens p kvs) ≡ true
unfolding is_space
starts_bare-join_tokens (k, v) [] (h, hs) = starts_bare-token k v h
starts_bare-join_tokens (k, v) (q ∷ kvs) (h, hs) =
    starts_bare_join "," refl (token (k, v)) (join_tokens q kvs) (starts_bare-token k v h)

ends_bare-join_tokens :
    (p : String × String) (kvs : Dict String)
    → All IsPair (p ∷ kvs)
    → ends_bare (join_tokens p kvs) ≡ true
unfolding is_space
ends_bare-join_tokens (k, v) [] (h, hs) = ends_bare-token k v h
ends_bare-join_tokens (k, v) (q ∷ kvs) (h, hs) =
    ends_bare_join "," refl (token (k, v)) (join_tokens q kvs) (ends_bare-join_tokens q kvs hs)

pub strip-format_kv : (kvs : Dict String) → All IsPair kvs → strip (format_kv kvs) ≡ format_kv kvs
unfolding strip
strip-format_kv [] h = refl
strip-format_kv (p ∷ kvs) h =
    strip_bare (join_tokens p kvs) (starts_bare-join_tokens p kvs h) (ends_bare-join_tokens p kvs h)

-- The specification of a registered policy with pairs in the format calls its factory with them.
pub parse_policy-format_kv :
    {P : Type 0} (registry : Registry P) (name : String) (factory : String → Outcome P)
    (kvs : Dict String)
    → starts_bare name ≡ true
    → ends_bare name ≡ true
    → lacks b':' name ≡ true
    → get name registry ≡ some factory
    → All IsPair kvs
    → parse_policy registry (name <> String.◌∷◌ ":" (format_kv kvs)) ≡ factory (format_kv kvs)
unfolding parse_policy
parse_policy-format_kv registry name factory kvs b e l g h =
    let parsed = λ (p : String × Bool × String).
      build_policy (get (strip p.0) registry) (strip p.0) (strip p.2) in
    ap parsed (partition_join ":" name l (format_kv kvs))
    ∙ ap (λ n. build_policy (get n registry) n (strip (format_kv kvs))) (strip_bare name b e)
    ∙ ap (λ o. build_policy o name (strip (format_kv kvs))) g
    ∙ ap factory (strip-format_kv kvs h)
