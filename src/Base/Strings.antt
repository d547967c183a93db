-- ===== src/Base/Strings.antt =====
-- std::string as the native text. `==` on texts goes by another name here than on numbers.
use Prim.Native.String.{String}
use mathlib.Core.Path.{◌≡◌, refl}
use mathlib.Core.Bool.{Bool, true, false, ◌||◌}
use mathlib.Core.List.{List, [], ◌∷◌}
use native.Mathlib.Omega.{arith}
use text.Mathlib.Text.{◌==◌}
use text.Mathlib.TextEquality.{eq_iff}
pub use text.Mathlib.TextPositions.{eq_refl}
pub use Prim.Native.String.{String}

infix 50 ◌=?◌
abbrev pub ◌=?◌ : String → String → Bool
a =? b = a == b

pub =?_iff : (a b : String) → ((a =? b) ≡ true → a ≡ b) × (a ≡ b → (a =? b) ≡ true)
=?_iff a b = (λ h. (eq_iff a b).0 h, λ h. (eq_iff a b).1 h)

pub =?_refl : (a : String) → (a =? a) ≡ true
=?_refl a = (eq_iff a a).1 refl

-- `empty()` of std::string.
abbrev pub blank : String → Bool
blank s = s =? ""

pub =?_comm : (a b : String) → (a =? b) ≡ (b =? a)
=?_comm a b = ground (arith, eq_iff a b, eq_iff b a)

-- std::find over a vector of strings.
unfoldable pub contains : String → List String → Bool
contains s [] = false
contains s (x ∷ xs) = (x =? s) || contains s xs
