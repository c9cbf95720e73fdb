-- ===== src/Base/Texts.antt =====
-- Texts as keys: equality, membership and tables by name.
use Prim.Native.Nat.{ℕ}
use Prim.Native.Char.{code}
use Prim.Native.String.{String}
use mathlib.Core.Bool.{Bool, false, ◌||◌}
use mathlib.Core.List.{List, [], ◌∷◌}
use mathlib.Core.Option.{Option, none, some}
use text.Mathlib.Text
use b2_mcp.Base.Tests.{if◌then◌else◌}

abbrev pub str_eq : String → String → Bool
str_eq s t = Text.◌==◌ s t

-- The code units of a text, which is ASCII wherever this is applied.
abbrev pub codes : String → List ℕ
codes String.[] = []
codes (String.◌∷◌ c s) = code c ∷ codes s

-- `Set.prototype.has` and `Array.prototype.includes` at texts.
abbrev pub includes : String → List String → Bool
includes k [] = false
includes k (x ∷ xs) = str_eq x k || includes k xs

-- Reading a property of an object literal, or `Map.prototype.get`.
abbrev pub lookup {ℓ} : {V : Type ℓ} → String → List (String × V) → Option V
lookup k [] = none
lookup k ((j, v) ∷ m) = if str_eq j k then some v else lookup k m
