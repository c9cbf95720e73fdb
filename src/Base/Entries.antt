-- ===== src/Base/Entries.antt =====
-- Tables by name: how many entries an operation leaves, and what holds of all of them.
use Prim.Native.Nat.{suc, ◌≤◌}
use Prim.Native.String.{String}
use mathlib.Core.Path.{◌≡◌, subst, refl, sym}
use mathlib.Core.List.{List, [], ◌∷◌}
use mathlib.Core.Bool.{Bool, true, false}
use mathlib.Core.Logic.{inl, inr, ◌⊎◌}
use mathlib.Core.Option.{Option, some}
use native.Mathlib.Omega.{arith}
use text.Mathlib.TextEquality.{eq_iff}
use b2_mcp.Base.Tests.{Bool-cases, if◌then◌else◌}
use b2_mcp.Base.Lists.{All, length}
use b2_mcp.Base.Texts.{lookup, str_eq}
use b2_mcp.Base.Tables.{remove, retain, set}

module _ {ℓ} {V : Type ℓ} where
  pub length-retain : (p : V → Bool) (m : List (String × V)) → length (retain p m) ≤ length m
  length-retain p [] = omega arith
  length-retain p ((k, v) ∷ m) = ground (arith, length-retain p m)

  pub length-set :
      (k : String) (v : V) (m : List (String × V)) → length (set k v m) ≤ suc (length m)
  length-set k v [] = omega arith
  length-set k v ((j, w) ∷ m) = ground (arith, length-set k v m)

  pub length-remove : (k : String) (m : List (String × V)) → length (remove k m) ≤ length m
  length-remove k [] = omega arith
  length-remove k ((j, w) ∷ m) = ground (arith, length-remove k m)

  -- What `lookup` finds is the first entry, or is found behind it.
  pub lookup-cases :
      (b : Bool) {w v : V} {o : Option V}
      → (if b then some w else o) ≡ some v
      → ((b ≡ true) × (w ≡ v)) ⊎ ((b ≡ false) × (o ≡ some v))
  lookup-cases true h = inl (refl, cc)
  lookup-cases false h = inr (refl, h)

  -- An entry that is there is removed.
  pub length-remove-some :
      (k : String) (m : List (String × V)) {v : V}
      → lookup k m ≡ some v
      → suc (length (remove k m)) ≤ length m
  length-remove-some k [] h = cc
  length-remove-some k ((j, w) ∷ m) {v} h = elim (lookup-cases (str_eq j k) h) [
    | inl (same, found) ↦ ground (arith, same, length-remove k m)
    | inr (other, behind) ↦ ground (arith, other, length-remove-some k m behind)
  ]

  module _ {κ} (P : String × V → Type κ) where
    pub All-retain : (p : V → Bool) (m : List (String × V)) → All P m → All P (retain p m)
    All-retain p [] h = tt
    All-retain p ((k, v) ∷ m) (q, h) = elim (Bool-cases (p v)) [
      | inl yes_kept ↦ rw yes_kept (q, All-retain p m h)
      | inr dropped ↦ rw dropped (All-retain p m h)
    ]

    pub All-remove : (k : String) (m : List (String × V)) → All P m → All P (remove k m)
    All-remove k [] h = tt
    All-remove k ((j, v) ∷ m) (q, h) = elim (Bool-cases (str_eq j k)) [
      | inl same ↦ rw same (All-remove k m h)
      | inr other ↦ rw other (q, All-remove k m h)
    ]

    pub All-set :
        (k : String) (v : V) (m : List (String × V)) → P (k, v) → All P m → All P (set k v m)
    All-set k v [] p h = (p, tt)
    All-set k v ((j, w) ∷ m) p (q, h) = elim (Bool-cases (str_eq j k)) [
      | inl same ↦ rw same (subst (λ i. P (i, v)) (sym ((eq_iff j k).0 same)) p, h)
      | inr other ↦ rw other (q, All-set k v m p h)
    ]

    pub All-lookup :
        (k : String) (m : List (String × V)) {v : V} → lookup k m ≡ some v → All P m → P (k, v)
    All-lookup k [] e h = cc
    All-lookup k ((j, w) ∷ m) e (q, h) = elim (lookup-cases (str_eq j k) e) [
      | inl (same, found) ↦
          subst (λ x. P (k, x)) found (subst (λ i. P (i, w)) ((eq_iff j k).0 same) q)
      | inr (other, behind) ↦ All-lookup k m behind h
    ]
