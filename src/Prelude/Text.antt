-- ===== src/Prelude/Text.antt =====
-- Texts: their code points, and Python's order on them.
use Prim.Native.Nat.{ℕ}
use Prim.Native.Char.{code}
use Prim.Native.String.{String}
use mathlib.Core.Bool.{Bool, true, false}
use mathlib.Core.List.{List, [], ◌∷◌}
pub use text.Mathlib.Text.{◌==◌ as str_eq}
use accumulative_matrix_swee.Prelude.Tests.{ltb, ◌==◌, if◌then◌else◌}

abbrev pub codes : String → List ℕ
codes String.[] = []
codes (String.◌∷◌ c s) = code c ∷ codes s

-- `a < b` on two texts, by code points.
abbrev pub lex_lt : List ℕ → List ℕ → Bool
lex_lt xs [] = false
lex_lt [] (y ∷ ys) = true
lex_lt (x ∷ xs) (y ∷ ys) = if x == y then lex_lt xs ys else ltb x y

abbrev pub str_lt : String → String → Bool
str_lt a b = lex_lt (codes a) (codes b)
