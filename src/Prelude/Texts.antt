-- ===== src/Prelude/Texts.antt =====
-- Equality of texts as a Boolean test, and membership of a text in a list of texts.
use Prim.Native.String.{String}
use mathlib.Core.Path.{◌≡◌}
use mathlib.Core.Bool.{Bool, true, false, ◌||◌}
use mathlib.Core.List.{List, [], ◌∷◌}
use native.Mathlib.Omega.{arith}
pub use text.Mathlib.Text.{◌==◌ as str_eq}
pub use text.Mathlib.TextEquality.{eq_iff as str_eq_iff}
pub use text.Mathlib.TextPositions.{eq_refl as str_eq_refl}

pub str_eq→eq : (s t : String) → str_eq s t ≡ true → s ≡ t
str_eq→eq s t h = ground (arith, str_eq_iff s t)

-- The loop `for _, p := range ps { if p == s { found = true; break } }`.
unfoldable pub str_elem : String → List String → Bool
str_elem s [] = false
str_elem s (p ∷ ps) = str_eq p s || str_elem s ps
