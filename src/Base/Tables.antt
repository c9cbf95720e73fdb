-- ===== src/Base/Tables.antt =====
-- A `Map` with texts as keys, as the list of its entries in insertion order.
use mathlib.Core.Path.{◌≡◌, refl}
use mathlib.Core.List.{List, [], ◌∷◌}
use mathlib.Core.Bool.{Bool, true}
use mathlib.Core.Option.{Option, none, some}
use mathlib.Core.Logic.{◌↔◌, inl, inr}
use native.Mathlib.Omega.{arith}
use Prim.Native.String.{String}
use text.Mathlib.TextEquality.{eq_iff}
use b2_mcp.Base.Tests.{Bool-cases, if◌then◌else◌}
use b2_mcp.Base.Texts.{lookup, str_eq}

pub str_eq_iff : (s t : String) → (str_eq s t ≡ true) ↔ (s ≡ t)
str_eq_iff s t = eq_iff s t

pub str_eq_refl : (s : String) → str_eq s s ≡ true
str_eq_refl s = (eq_iff s s).1 refl

module _ {ℓ} {V : Type ℓ} where
  -- `map.set(key, value)`: an entry keeps its place, a new one goes to the end.
  abbrev pub set : String → V → List (String × V) → List (String × V)
  set k v [] = (k, v) ∷ []
  set k v ((j, w) ∷ m) = let rest = set k v m in if str_eq j k then (j, v) ∷ m else (j, w) ∷ rest

  -- `for (const [k, v] of map) if (!keep(v)) map.delete(k)`
  abbrev pub retain : (V → Bool) → List (String × V) → List (String × V)
  retain keep [] = []
  retain keep ((j, w) ∷ m) = let rest = retain keep m in if keep w then (j, w) ∷ rest else rest

  -- Each key has one entry.
  abbrev pub HasUniqueKeys : List (String × V) → Type ℓ
  HasUniqueKeys [] = Unit
  HasUniqueKeys ((k, v) ∷ m) = (lookup k m ≡ none) × HasUniqueKeys m

  pub lookup-set :
      (j k : String) (v : V) (m : List (String × V))
      → lookup j (set k v m) ≡ (if str_eq k j then some v else lookup j m)
  lookup-set j k v [] = refl
  lookup-set j k v ((i, w) ∷ m) =
      ground (arith, eq_iff k j, eq_iff i k, eq_iff i j, lookup-set j k v m)

  pub set-HasUniqueKeys :
      (k : String) (v : V) (m : List (String × V)) → HasUniqueKeys m → HasUniqueKeys (set k v m)
  set-HasUniqueKeys k v [] u = (refl, tt)
  set-HasUniqueKeys k v ((i, w) ∷ m) (fresh, u) = elim (Bool-cases (str_eq i k)) [
    | inl same ↦ rw same (fresh, u)
    | inr other ↦
        rw other
          (ground (arith, lookup-set i k v m, eq_iff k i, eq_iff i k), set-HasUniqueKeys k v m u)
  ]

  abbrev pub kept : (V → Bool) → Option V → Option V
  kept keep none = none
  kept keep (some v) = if keep v then some v else none

  pub lookup-retain-none :
      (keep : V → Bool) (k : String) (m : List (String × V))
      → lookup k m ≡ none
      → lookup k (retain keep m) ≡ none
  lookup-retain-none keep k [] h = refl
  lookup-retain-none keep k ((i, w) ∷ m) h = ground (arith, lookup-retain-none keep k m)

  pub lookup-retain :
      (keep : V → Bool) (k : String) (m : List (String × V))
      → HasUniqueKeys m
      → lookup k (retain keep m) ≡ kept keep (lookup k m)
  lookup-retain keep k [] u = refl
  lookup-retain keep k ((i, w) ∷ m) (fresh, u) =
      ground (arith, lookup-retain keep k m u, eq_iff i k, lookup-retain-none keep i m fresh)

  pub retain-HasUniqueKeys :
      (keep : V → Bool) (m : List (String × V)) → HasUniqueKeys m → HasUniqueKeys (retain keep m)
  retain-HasUniqueKeys keep [] u = tt
  retain-HasUniqueKeys keep ((i, w) ∷ m) (fresh, u) =
      ground (arith, lookup-retain-none keep i m fresh, retain-HasUniqueKeys keep m u)

  -- `map.delete(key)`
  abbrev pub remove : String → List (String × V) → List (String × V)
  remove k [] = []
  remove k ((j, w) ∷ m) = let rest = remove k m in if str_eq j k then rest else (j, w) ∷ rest

  pub lookup-remove :
      (j k : String) (m : List (String × V))
      → lookup j (remove k m) ≡ (if str_eq k j then none else lookup j m)
  lookup-remove j k [] = ground arith
  lookup-remove j k ((i, w) ∷ m) =
      ground (arith, eq_iff k j, eq_iff i k, eq_iff i j, lookup-remove j k m)

  pub remove-HasUniqueKeys :
      (k : String) (m : List (String × V)) → HasUniqueKeys m → HasUniqueKeys (remove k m)
  remove-HasUniqueKeys k [] u = tt
  remove-HasUniqueKeys k ((i, w) ∷ m) (fresh, u) =
      ground (arith, lookup-remove i k m, remove-HasUniqueKeys k m u)
