-- ===== src/Base/Members.antt =====
-- Tests of all texts, or of some text, of a list.
use mathlib.Core.Path.{◌≡◌, refl, subst}
use mathlib.Core.Bool.{Bool, true}
use mathlib.Core.List.{List, [], ◌∷◌}
use mathlib.Core.Logic.{inl, inr}
use Prim.Native.String.{String}
use native.Mathlib.Omega.{arith}
use text.Mathlib.TextEquality.{eq_iff}
use b2_mcp.Base.Tests.{Bool-cases, true_of_and}
use b2_mcp.Base.Lists.{all, any}
use b2_mcp.Base.Texts.{includes, str_eq}

-- A text of the list that passes the test.
pub some_of_any :
    (p : String → Bool) (xs : List String)
    → any p xs ≡ true
    → (x : String) × (includes x xs ≡ true) × (p x ≡ true)
some_of_any p [] h = cc
some_of_any p (x ∷ xs) h = elim (Bool-cases (p x)) [
  | inl here ↦ (x, rw ((eq_iff x x).1 refl) refl, here)
  | inr other ↦
      let (y, member, there) = some_of_any p xs (rw other at h) in
      (y, ground (arith, member), there)
]

pub each_of_all :
    (p : String → Bool) (xs : List String)
    → all p xs ≡ true
    → (x : String) → includes x xs ≡ true
    → p x ≡ true
each_of_all p [] h x member = cc
each_of_all p (y ∷ ys) h x member =
    let (here, there) = true_of_and (p y) (all p ys) h in
    elim (Bool-cases (str_eq y x)) [
      | inl same ↦ subst (λ z. p z ≡ true) ((eq_iff y x).0 same) here
      | inr other ↦ each_of_all p ys there x (rw other at member)
    ]
