-- ===== src/Errors/Status.antt =====
-- The status that parseB2Error of src/utils/errors.ts gives.
use mathlib.Core.Option
use b2_mcp.Base.{Option, String, none, some, true, ℕ, ◌≡◌, ◌≢◌, ◌⊎◌}
use b2_mcp.Value.{Store, Value, as_num, is_object, null, num, prop, str, undefined}
use b2_mcp.Errors.{B2ApiError}

module _ (render : Store → Value → String) (to_text : Value → String) (h : Store) where
  -- A number; or, of an object with a text for its code and its message, the status it has, which is
  -- neither a number nor absent.
  abbrev pub HasStatus : Value → Value → Type 0
  HasStatus err status =
      ((s : ℕ) × (status ≡ num s))
      ⊎ ((is_object err ≡ true)
          × (c : String) × (m : String) × (prop h err "code" ≡ str c)
          × (prop h err "message" ≡ str m)
          × (as_num (prop h err "status") ≡ none)
          × (prop h err "status" ≢ undefined)
          × (prop h err "status" ≢ null)
          × (status ≡ prop h err "status"))

  abbrev Fits : Value → Option B2ApiError → Type 0
  Fits err none = Unit
  Fits err (some r) = HasStatus err r.status
