-- ===== src/Common/Text.antt =====
-- Texts as keys: the Boolean test on texts, membership and absence of repetition in lists of texts.
use Prim.Native.String
use Prim.Native.String.{String}
use mathlib.Core.Path.{◌≡◌}
use mathlib.Core.Logic.{◌↔◌}
use mathlib.Core.Bool.{Bool, true, false, ◌||◌}
use mathlib.Core.List.{List, [], ◌∷◌, ◌++◌}
use native.Mathlib.Omega.{arith}
use text.Mathlib.Text
use text.Mathlib.TextEquality.{eq_iff}

abbrev pub str_eq : String → String → Bool
str_eq a b = Text.◌==◌ a b

pub str_eq_iff : (a b : String) → (str_eq a b ≡ true) ↔ (a ≡ b)
str_eq_iff a b = eq_iff a b

abbrev pub str_concat : String → String → String
str_concat a b = String.◌++◌ a b

-- Python's `key in keys` on a list of texts.
unfoldable pub contains : List String → String → Bool
contains [] k = false
contains (j ∷ ks) k = str_eq j k || contains ks k

pub contains-append_left :
    (xs ys : List String) (k : String) → contains xs k ≡ true → contains (xs ++ ys) k ≡ true
unfolding contains
contains-append_left [] ys k h = ground arith
contains-append_left (x ∷ xs) ys k h = ground (arith, contains-append_left xs ys k)
