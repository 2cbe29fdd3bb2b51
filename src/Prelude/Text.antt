-- ===== src/Prelude/Text.antt =====
-- Strings of the program, as the native texts: the sequence of their code points.
use Prim.Native.Char.{Char, code}
use Prim.Native.String.{String, [], ◌∷◌}
use mathlib.Core.Bool.{Bool, true, false, not, ◌&&◌, ◌||◌}
use Prim.Native.Nat.{ℕ}
use text.Mathlib.Text.{◌==◌}
use text.Mathlib.TextEquality.{eq_iff}
use text.Mathlib.TextPositions.{eq_refl}
use tmx_assessment.Prelude.Tests.{leb, ◌==◌ as same, if◌then◌else◌}
pub use text.Mathlib.TextEquality.{eq_iff}
pub use text.Mathlib.TextPositions.{eq_refl}

infix 50 ◌===◌
abbrev pub ◌===◌ : String → String → Bool
s === t = s == t

-- The truth value of a string: the empty one is false.
abbrev pub filled : String → Bool
filled [] = false
filled (c ∷ s) = true

-- What `String.prototype.trim` removes: white space and line ends.
abbrev is_space_code : ℕ → Bool
is_space_code c =
    leb 9 c && leb c 13
    || same c 32
    || same c 160
    || same c 0x1680
    || leb 0x2000 c && leb c 0x200a
    || same c 0x2028
    || same c 0x2029
    || same c 0x202f
    || same c 0x205f
    || same c 0x3000
    || same c 0xfeff

pub is_space : Char → Bool
is_space c = is_space_code (code c)

unfoldable pub trim_start : String → String
trim_start [] = []
trim_start (c ∷ s) = let rest = trim_start s in if is_space c then rest else c ∷ s

unfoldable pub trim_end : String → String
trim_end [] = []
trim_end (c ∷ s) = let rest = trim_end s in if is_space c && not (filled rest) then [] else c ∷ rest

unfoldable pub trim : String → String
unfolding trim_start trim_end is_space
trim s = trim_end (trim_start s)
