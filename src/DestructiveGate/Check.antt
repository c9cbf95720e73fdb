-- ===== src/DestructiveGate/Check.antt =====
-- checkDestructive of src/utils/destructive-gate.ts. The consent that the wrapper installs, which
-- the code keeps in an AsyncLocalStorage, is an argument; `digest` is `destructiveTargetDigest`.
use Prim.Native.String
use b2_mcp.Base.{Bool, Option, String, false, if◌then◌else◌, none, some, str_eq, true, ℕ, ◌&&◌}
use b2_mcp.Json.{Fields, Json, get, is_true}
use b2_mcp.DestructiveGate.Detectors.{destructive_effect, reason}
use b2_mcp.DestructiveGate.Digest.{B2Config}

pub data DestructivePolicy : Type 0 where
  allow block elicit confirm : DestructivePolicy

abbrev pub policy_of : Option String → DestructivePolicy
policy_of none = confirm
policy_of (some p) =
    if str_eq p "allow"
    then allow
    else if str_eq p "block"
    then block
    else if str_eq p "elicit"
    then elicit
    else confirm

unfoldable pub get_destructive_policy : B2Config → DestructivePolicy
get_destructive_policy c = policy_of c.destructive_policy

pub record DestructiveConsent : Type 0 where
  pub tool_name : String
  pub args_digest : String

unfoldable pub has_destructive_elicitation_consent :
    Option DestructiveConsent → String → String → Bool
has_destructive_elicitation_consent none tool digest = false
has_destructive_elicitation_consent (some c) tool digest =
    str_eq c.tool_name tool && str_eq c.args_digest digest

pub record Refusal : Type 0 where
  pub status : ℕ
  pub code : String
  pub message : String

pub data GateResult : Type 0 where
  allowed : GateResult
  blocked : Refusal → GateResult

abbrev pub is_allowed : GateResult → Bool
is_allowed allowed = true
is_allowed (blocked r) = false

abbrev pub refused_to : String → String → String
refused_to effect reason = String.◌++◌ "Refused: this would " (String.◌++◌ effect reason)

abbrev pub blocked_message : String → String
blocked_message effect =
    refused_to effect
      ". Destructive operations are blocked on this server (B2_DESTRUCTIVE_POLICY=block)."

abbrev pub elicit_message : String → String
elicit_message effect =
    refused_to effect
      " — a destructive/irreversible action. This server's policy (B2_DESTRUCTIVE_POLICY=elicit) requires an accepted MCP elicitation response for this specific action; a model-supplied confirmation cannot satisfy it, and the action is refused when no such response can be obtained. Report this refusal and the effect above to the human operator."

abbrev pub confirm_message : String → String
confirm_message effect =
    refused_to effect
      " — a destructive/irreversible action. This server's policy (B2_DESTRUCTIVE_POLICY=confirm) expects a human operator, not the calling model, to approve this specific action before it runs. Report this refusal and the effect above to the human operator and let them decide; do not approve it on their behalf."

abbrev pub refusal : ℕ → String → String → GateResult
refusal status code message = blocked (record { status = status; code = code; message = message })

module _ (digest : B2Config → Fields → String) (consent : Option DestructiveConsent) where
  abbrev pub gate : DestructivePolicy → Bool → Json → String → GateResult
  gate allow consented confirmation effect = allowed
  gate block consented confirmation effect =
      refusal 403 "destructive_policy_blocked" (blocked_message effect)
  gate elicit consented confirmation effect =
      if consented
      then allowed
      else refusal 409 "destructive_confirmation_refused" (elicit_message effect)
  gate confirm consented confirmation effect =
      if consented
      then allowed
      else if is_true confirmation
      then allowed
      else refusal 409 "destructive_confirmation_required" (confirm_message effect)

  abbrev pub check_effect : String → Fields → B2Config → Option String → GateResult
  check_effect tool args c none = allowed
  check_effect tool args c (some effect) =
      gate (get_destructive_policy c)
        (has_destructive_elicitation_consent consent tool (digest c args)) (get "confirm" args)
        effect

  unfoldable pub check_destructive : String → Fields → B2Config → GateResult
  check_destructive tool args c = check_effect tool args c (destructive_effect tool args)
