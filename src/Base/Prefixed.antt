-- ===== src/Base/Prefixed.antt =====
-- Texts behind a common prefix, as the keys of the store are.
use Prim.Native.String.{String, ◌++◌}
use mathlib.Core.Path.{◌≡◌}
use text.Mathlib.TextEquality.{eq_iff}
use text.Mathlib.TextLemmas.{append_cancel_left}
use native.Mathlib.Omega.{arith}
use primal_core.Base.Tests.{str_eq}

-- Two texts behind the same prefix are equal exactly when the texts are.
pub str_eq-append : (p s t : String) → str_eq (p ++ s) (p ++ t) ≡ str_eq s t
str_eq-append p s t = ground (arith, eq_iff s t, eq_iff (p ++ s) (p ++ t), append_cancel_left p s t)
