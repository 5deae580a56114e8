-- ===== src/Base/Text.antt =====
-- Go's strings: the native texts, with the decision of their equality.
use Prim.Native.String.{String}
use mathlib.Core.Bool.{false}
use mathlib.Core.Logic.{◌≢◌}
use mathlib.Core.Path.{◌≡◌}
use text.Mathlib.Text.{◌==◌ as str_eq}
use text.Mathlib.TextEquality.{eq_iff}
use k_elda_archive.Base.Tests.{dec_of_test}

pub str_ne : (a b : String) → str_eq a b ≡ false → a ≢ b
str_ne a b h e = cc (h, (eq_iff a b).1 e)

unfoldable pub str_discrete : Discrete String
unfolding dec_of_test
str_discrete a b = dec_of_test (str_eq a b) (eq_iff a b).0 (str_ne a b)
