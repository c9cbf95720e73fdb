-- ===== src/CauseChain.antt =====
-- src/utils/named-error.ts: searching the chain of an error's causes, and telling errors by name.
-- The recursion stops by the set of objects seen. `find_inner` counts its calls with fuel;
-- CauseChain.Total shows that one call more than the store has objects is enough.
pub mod Total
pub mod Search
pub mod Interruption
mod Tests
use b2_mcp.Base.{
  Bool, List, Option, [], false, has, if◌then◌else◌, length, none, some, suc, true, zero, ℕ, ◌∷◌,
}
use b2_mcp.Value.{Store, Value, is_object, prop, ref, undefined}

pub error_cause : Store → Value → Value
error_cause h v = if is_object v then prop h v "cause" else undefined

-- `typeof value !== "object" || value === null || seen.has(value)`
abbrev pub blocked : Value → List ℕ → Bool
blocked (ref a) seen = has a seen
blocked _ seen = true

abbrev pub add_seen : Value → List ℕ → List ℕ
add_seen (ref a) seen = a ∷ seen
add_seen _ seen = seen

abbrev pub is_undefined : Value → Bool
is_undefined undefined = true
is_undefined _ = false

module _ {ℓ} {T : Type ℓ} (h : Store) (predicate : Value → Option T) where
  -- The outer `none` says that the fuel ran out.
  pub find_inner : ℕ → Value → List ℕ → Option (Option T)
  find_inner zero value seen = none
  find_inner (suc fuel) value seen =
      let rest = find_inner fuel (error_cause h value) (add_seen value seen) in
      elim (predicate value) [
        | some found ↦ some (some found)
        | none ↦ elim (blocked value seen) [
          | true ↦ some none
          | false ↦ elim (is_undefined (error_cause h value)) [ true ↦ some none | false ↦ rest ]
        ]
      ]

  abbrev pub settled : Option (Option T) → Option T
  settled none = none
  settled (some r) = r

  unfoldable pub find_in_cause_chain : Value → Option T
  unfolding find_inner error_cause
  find_in_cause_chain value = settled (find_inner (suc (length h)) value [])

-- `predicate` as it is used with a Boolean test: the value itself where the test holds.
abbrev pub matching : (Value → Bool) → Value → Option Value
matching test v = if test v then some v else none
