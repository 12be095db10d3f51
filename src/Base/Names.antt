-- ===== src/Base/Names.antt =====
-- Symbol names: the native texts, their test, and lists of them.
use Prim.Native.String.{String}
use mathlib.Core.Path.{◌≡◌, refl}
use mathlib.Core.Logic.{◌↔◌}
use mathlib.Core.Bool.{Bool, true, false, ◌||◌}
use mathlib.Core.List.{List, [], ◌∷◌, ◌++◌}
use native.Mathlib.Omega.{arith}
use text.Mathlib.Text.{◌==◌ as str_eq}
use text.Mathlib.TextEquality.{eq_iff}

abbrev pub same : String → String → Bool
same s t = str_eq s t

pub same_iff : (s t : String) → (same s t ≡ true) ↔ (s ≡ t)
same_iff = eq_iff

pub same_refl : (s : String) → same s s ≡ true
same_refl s = (eq_iff s s).1 refl

abbrev pub has_name : String → List String → Bool
has_name s [] = false
has_name s (t ∷ ts) = same t s || has_name s ts

pub has_name-append :
    (s : String) (xs ys : List String) → has_name s (xs ++ ys) ≡ (has_name s xs || has_name s ys)
has_name-append s [] ys = refl
has_name-append s (x ∷ xs) ys = ground (arith, has_name-append s xs ys)

pub same_comm : (s t : String) → same s t ≡ same t s
same_comm s t = ground (arith, same_iff s t, same_iff t s)
