-- ===== src/Elicitation/Decide.antt =====
-- maybeRequireDestructiveElicitation of src/utils/destructive-elicitation.ts. Its outcome says
-- whether the tool's handler runs, and with which approval installed; beside it stand the events
-- that `onDecision` gets, in order.
use Prim.Native.String
use b2_mcp.Base.{
  Bool, List, Option, String, [], false, if◌then◌else◌, ltb, none, not, some, str_eq, true, ℕ, ◌&&◌,
  ◌-◌, ◌∷◌,
}
use b2_mcp.Json.{Fields, Json, fields_of, get, is_true, is_undefined, str, undefined}
use b2_mcp.Csv.{Units}
use b2_mcp.DestructiveGate.Detectors.{destructive_effect, reason}
use b2_mcp.DestructiveGate.Digest.{B2Config}
use b2_mcp.DestructiveGate.Check.{
  DestructiveConsent, DestructivePolicy, Refusal, allow, block, check_destructive, elicit,
  get_destructive_policy, is_allowed,
}
use b2_mcp.Elicitation.State.{
  DestructiveElicitationState, RequestStateCodec, max_age_ms, parse_destructive_elicitation_state,
  payload,
}
use b2_mcp.Elicitation.Client.{
  ContextProviders, InputResponse, McpRequestExtra, accept, cancel,
  client_can_use_return_based_elicitation, decline, destructive_elicitation_enabled, elicited,
  mcp_input_responses, mcp_request_state, missing,
}

pub data FallbackReason : Type 0 where
  elicitation_disabled client_cannot_elicit : FallbackReason

pub data RefusalOutcome : Type 0 where
  declined cancelled refused : RefusalOutcome

pub data AuditEvent : Type 0 where
  requested accepted : AuditEvent
  fallback_accepted : FallbackReason → AuditEvent
  not_given : RefusalOutcome → String → AuditEvent

pub data Outcome : Type 0 where
  runs_original : Outcome
  runs_with_consent : DestructiveConsent → Outcome
  input_required : Units → String → Outcome
  tool_error : Refusal → Outcome
  -- minting the state failed, and so does the call
  mint_failed : Outcome

abbrev pub Decided : Type 0
Decided = Outcome × List AuditEvent

-- A call of a tool, as the wrapper gets it.
pub record Call : Type 0 where
  pub tool_name : String
  pub args : Fields
  pub extra : McpRequestExtra
  pub config : B2Config
  pub providers : ContextProviders
  -- B2_DESTRUCTIVE_ELICITATION
  pub flag : Option Units
  -- Date.now()
  pub now : ℕ

abbrev pub response_key : String
response_key = "destructiveConfirmation"

abbrev pub refusal_message : String → String → String
refusal_message tool reason = String.◌++◌ "Refused: " (
    String.◌++◌ tool (
      String.◌++◌ " requires explicit human approval by MCP elicitation; "
        (String.◌++◌ reason ".")))

abbrev pub disabled_reason : String
disabled_reason =
    "MCP elicitation is disabled on this server (B2_DESTRUCTIVE_ELICITATION), so no human can be prompted"

abbrev pub unable_reason : String
unable_reason = "this client cannot present an MCP elicitation prompt, so no human can approve"

unfoldable pub destructive_elicitation_refused : String → String → RefusalOutcome → Decided
destructive_elicitation_refused tool reason outcome = (
  tool_error (record {
    status = 409;
    code = "destructive_confirmation_refused";
    message = refusal_message tool reason;
  }),
  not_given outcome reason ∷ [],
)

abbrev pub legacy_confirm_fallback : Fields → FallbackReason → List AuditEvent
legacy_confirm_fallback args reason =
    if is_true (get "confirm" args) then fallback_accepted reason ∷ [] else []

-- No human can be reached: `elicit` refuses, `confirm` leaves the call to the gate.
abbrev pub out_of_reach : DestructivePolicy → Call → FallbackReason → String → Decided
out_of_reach elicit k fallback reason = destructive_elicitation_refused k.tool_name reason refused
out_of_reach _ k fallback reason = (runs_original, legacy_confirm_fallback k.args fallback)

abbrev pub is_text : Json → Bool
is_text (str s) = true
is_text _ = false

-- A verified state, or why there is none.
pub data StateVerification : Type 0 where
  verified : DestructiveElicitationState → StateVerification
  unverified : String → StateVerification

abbrev pub parsed_state : Option Json → Option DestructiveElicitationState
parsed_state none = none
parsed_state (some v) = parse_destructive_elicitation_state v

abbrev pub presented : RequestStateCodec → Json → Option DestructiveElicitationState
presented codec (str s) = parsed_state (codec.verify s)
presented codec v = parse_destructive_elicitation_state v

abbrev pub is_expired : ℕ → ℕ → Bool
is_expired now issued_at = ltb max_age_ms (now - issued_at)

abbrev pub matches : DestructiveElicitationState → String → String → String → Bool
matches s tool effect digest =
    str_eq s.tool_name tool && (str_eq s.effect effect && str_eq s.args_digest digest)

abbrev pub check_state :
    ℕ → String → String → String → Option DestructiveElicitationState → StateVerification
check_state now tool effect digest none = unverified "requestState payload was invalid"
check_state now tool effect digest (some s) =
    if is_expired now s.issued_at
    then unverified "requestState expired"
    else if matches s tool effect digest
    then verified s
    else unverified "approved destructive target did not match this call"

unfoldable pub verify_destructive_elicitation_state :
    RequestStateCodec → Json → ℕ → String → String → String → StateVerification
verify_destructive_elicitation_state codec undefined now tool effect digest =
    unverified "requestState is missing"
verify_destructive_elicitation_state codec v now tool effect digest =
    check_state now tool effect digest (presented codec v)

-- What the wrapper calls. `request_codec` is requestStateCodec with its configuration, `digest` is
-- destructiveTargetDigest, `message` is destructiveElicitationMessage, and `input_response` the SDK's
-- inputResponse; the two keys are the SDK's.
pub record Services : Type 0 where
  pub request_codec : B2Config → Option RequestStateCodec → RequestStateCodec
  pub digest : B2Config → Fields → String
  pub message : String → String → Fields → Units
  pub input_response : Json → String → InputResponse
  pub client_capabilities_meta_key : String
  pub protocol_version_meta_key : String

module _ (sv : Services) where
  abbrev pub codec_of : Call → RequestStateCodec
  codec_of k = sv.request_codec k.config k.providers.codec

  abbrev pub digest_of : Call → String
  digest_of k = sv.digest k.config k.args

  abbrev pub requested_with : Units → Option String → Decided
  requested_with text none = (mint_failed, [])
  requested_with text (some state) = (input_required text state, requested ∷ [])

  abbrev pub mint_destructive_elicitation_state : Call → String → Option String
  mint_destructive_elicitation_state k effect = (codec_of k).mint (
      payload (record {
        tool_name = k.tool_name;
        effect = effect;
        args_digest = digest_of k;
        issued_at = k.now;
      }))

  -- The first round: no answer is there.
  abbrev pub ask : Call → String → Decided
  ask k effect =
      if is_undefined (mcp_request_state k.extra)
      then requested_with (sv.message k.tool_name effect k.args)
          (mint_destructive_elicitation_state k effect)
      else destructive_elicitation_refused k.tool_name "human confirmation was not provided" refused

  -- An answer, its state verified.
  abbrev pub on_response : Call → InputResponse → Decided
  on_response k (elicited accept content) =
      if is_true (get "confirm" (fields_of content))
      then (
        runs_with_consent (record { tool_name = k.tool_name; args_digest = digest_of k }),
        accepted ∷ [],
      )
      else destructive_elicitation_refused k.tool_name "human confirmation did not approve" refused
  on_response k (elicited decline content) =
      destructive_elicitation_refused k.tool_name "human confirmation was decline" declined
  on_response k (elicited cancel content) =
      destructive_elicitation_refused k.tool_name "human confirmation was cancel" cancelled
  on_response k _ =
      destructive_elicitation_refused k.tool_name "human confirmation response was invalid" refused

  abbrev pub on_verification : Call → InputResponse → StateVerification → Decided
  on_verification k response (unverified reason) =
      destructive_elicitation_refused k.tool_name reason refused
  on_verification k response (verified s) = on_response k response

  -- The second round: the answer comes with the state.
  abbrev pub resume : Call → String → InputResponse → Decided
  resume k effect missing = ask k effect
  resume k effect response = on_verification k response (
      verify_destructive_elicitation_state (codec_of k) (mcp_request_state k.extra) k.now
        k.tool_name effect (digest_of k))

  abbrev pub can_elicit : Call → Bool
  can_elicit k =
      client_can_use_return_based_elicitation sv.client_capabilities_meta_key
        sv.protocol_version_meta_key k.extra k.providers

  abbrev pub answer_of : Call → InputResponse
  answer_of k = sv.input_response (mcp_input_responses k.extra) response_key

  abbrev pub require_elicitation : DestructivePolicy → Call → String → Decided
  require_elicitation p k effect =
      if not (destructive_elicitation_enabled k.flag)
      then out_of_reach p k elicitation_disabled disabled_reason
      else if not (can_elicit k)
      then out_of_reach p k client_cannot_elicit unable_reason
      else resume k effect (answer_of k)

  abbrev pub by_policy : DestructivePolicy → Call → String → Decided
  by_policy allow k effect = (runs_original, [])
  by_policy block k effect = (runs_original, [])
  by_policy p k effect = require_elicitation p k effect

  abbrev pub with_effect : Option String → Call → Decided
  with_effect none k = (runs_original, [])
  with_effect (some effect) k = by_policy (get_destructive_policy k.config) k effect

  unfoldable pub maybe_require_destructive_elicitation : Call → Decided
  maybe_require_destructive_elicitation k = with_effect (destructive_effect k.tool_name k.args) k

  -- The wrapper with the handler's own gate behind it: does the operation go ahead?
  abbrev pub gated : Call → Outcome → Bool
  gated k runs_original = is_allowed (check_destructive sv.digest none k.tool_name k.args k.config)
  gated k (runs_with_consent c) =
      is_allowed (check_destructive sv.digest (some c) k.tool_name k.args k.config)
  gated k _ = false

  unfoldable pub goes_ahead : Call → Bool
  unfolding maybe_require_destructive_elicitation
  goes_ahead k = gated k (maybe_require_destructive_elicitation k).0
