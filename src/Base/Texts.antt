-- ===== src/Base/Texts.antt =====
-- Go strings: equality, and the texts that `fmt.Sprintf` builds from parts.
use Prim.Native.String.{◌++◌}
pub use Prim.Native.String.{String}
pub use text.Mathlib.Text.{◌==◌ as str_eq}
pub use text.Mathlib.TextEquality.{eq_iff}
pub use text.Mathlib.TextPositions.{eq_refl}
use mathlib.Core.List.{List, [], ◌∷◌}

-- The parts of a formatted text, one behind the other.
abbrev pub sprint : List String → String
sprint [] = ""
sprint (s ∷ parts) = s ++ sprint parts
