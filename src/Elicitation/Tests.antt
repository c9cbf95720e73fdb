-- ===== src/Elicitation/Tests.antt =====
-- Approvals at concrete calls, and the theorems at these inputs.
use Prim.Native.String
use b2_mcp.Base.{
  String, [], arith, codes, false, if◌then◌else◌, none, refl, some, str_eq, true, ◌↔◌, ◌∷◌, ◌≡◌,
  ◌⊎◌,
}
use b2_mcp.Json.{
  Fields, Json, arr, bool, cons, end, field, fields_of, get, is_str, nil, null, obj, str, undefined,
}
use b2_mcp.DestructiveGate.Digest.{B2Config, destructive_target_digest}
use b2_mcp.Elicitation.State.{
  DestructiveElicitationState, RequestStateCodec, parse_destructive_elicitation_state, payload,
  prefixed, request_state_prefix,
}
use b2_mcp.Elicitation.Client.{
  ContextProviders, InputResponse, McpRequestExtra, accept, cancel,
  client_can_use_return_based_elicitation, decline, destructive_elicitation_enabled, elicited, held,
  mcp_input_responses, mcp_request_state, missing, other_kind,
}
use b2_mcp.Elicitation.Decide.{
  Call, Services, answer_of, destructive_elicitation_refused, goes_ahead, input_required,
  maybe_require_destructive_elicitation, refused, requested, verify_destructive_elicitation_state,
}
use b2_mcp.Elicitation.Rounds.{again, goes_ahead-again, state_for}
use b2_mcp.Elicitation.Message.{
  bulk_object_target_details, destructive_elicitation_details, destructive_elicitation_message,
  lifecycle_rule_target_details, notification_rule_target_details,
}
use b2_mcp.DestructiveGate.Detectors.{destructive_effect}
use b2_mcp.DestructiveGate.Check.{
  check_destructive, get_destructive_policy, has_destructive_elicitation_consent,
}
use b2_mcp.Elicitation.Approval.{IsElicited, IsYes}
use b2_mcp.Elicitation.Authority.{Authorises, can_ask, goes_ahead_iff}
use b2_mcp.Elicitation.Audit.{IsAudited, maybe_require_destructive_elicitation-IsAudited}
use b2_mcp.Elicitation.Prompt.{prompt_detail, prompt_truncation_detail, safe_prompt_value}

abbrev stringify : Json → String
stringify (str s) = String.◌++◌ "'" (String.◌++◌ s "'")
stringify (bool true) = "true"
stringify (bool false) = "false"
stringify _ = "null"

-- A stand-in for the keyed hash: it keeps its inputs apart.
abbrev hmac : String → String → String
hmac key text = String.◌++◌ key (String.◌++◌ "|" text)

abbrev digest : B2Config → Fields → String
digest = destructive_target_digest stringify hmac "\0"

abbrev config : B2Config
config = record {
  application_key = some "k";
  app_key = none;
  master_key = none;
  credential_fingerprint = none;
  destructive_policy = none;
}

abbrev args : Fields
args = field "bucketId" (str "b1") (field "confirm" (bool true) end)

abbrev effect : String
effect = "permanently delete a bucket"

abbrev args_digest : String
args_digest = "k|b2-mcp-destructive-target-args\0{'bucketId':'b1'}"

digested : digest config args ≡ args_digest
unfolding destructive_target_digest
digested = refl

abbrev signed : DestructiveElicitationState
signed = record {
  tool_name = "b2_delete_bucket";
  effect = effect;
  args_digest = args_digest;
  issued_at = 1000;
}

-- A codec that has signed one state.
abbrev codec : RequestStateCodec
codec = record {
  mint = λ p. some "token";
  verify = λ s. if str_eq s "token" then some (payload signed) else none;
}

abbrev action_of : Json → Json → InputResponse
action_of action content =
    if is_str "accept" action
    then elicited accept content
    else if is_str "decline" action
    then elicited decline content
    else if is_str "cancel" action
    then elicited cancel content
    else other_kind

abbrev response_of : Json → InputResponse
response_of (obj fs) = action_of (get "action" fs) (get "content" fs)
response_of _ = missing

abbrev services : Services
services = record {
  request_codec = λ c given. prefixed codec;
  digest = digest;
  message = destructive_elicitation_message (λ s. s);
  input_response = λ responses key. response_of (get key (fields_of responses));
  client_capabilities_meta_key = "capabilities";
  protocol_version_meta_key = "version";
}

abbrev envelope : Fields
envelope =
    field "version" (str "2026-07-28")
      (field "capabilities" (obj (field "elicitation" (obj end) end)) end)

abbrev request : Json → Json → McpRequestExtra
request responses state = record {
  client_capabilities = undefined;
  mcp_req = some (record {
    input_responses = responses;
    request_state = held state;
    client_capabilities = undefined;
    envelope = envelope;
  });
}

abbrev no_hooks : ContextProviders
no_hooks = record { capabilities = undefined; protocol_version = none; codec = none }

abbrev first_call : Call
first_call = record {
  tool_name = "b2_delete_bucket";
  args = args;
  extra = request undefined undefined;
  config = config;
  providers = no_hooks;
  flag = none;
  now = 1000;
}

abbrev agreeing : Json
agreeing = obj (
    field "destructiveConfirmation"
      (obj (
        field "action" (str "accept")
          (field "content" (obj (field "confirm" (bool true) end)) end)))
      end)

abbrev approving : McpRequestExtra
approving = request agreeing (str "b2-mcp-destructive-elicitation-v1.token")

abbrev second_call : Call
second_call = again services first_call approving 600000

-- The second call for another bucket, and ten minutes later.
abbrev other_bucket : Call
other_bucket = record second_call { args = field "bucketId" (str "b2") end }

abbrev too_late : Call
too_late = record second_call { now = 601001 }

abbrev switched_off : Call
switched_off = record first_call { flag = some (codes " OFF ") }

-- The model's own `confirm: true` does not do where a human can be asked; where none can, it does.
asked_first : goes_ahead services first_call ≡ false
unfolding goes_ahead maybe_require_destructive_elicitation destructive_effect get_destructive_policy
    destructive_elicitation_enabled client_can_use_return_based_elicitation mcp_input_responses
    mcp_request_state prefixed
asked_first = refl

approved : goes_ahead services second_call ≡ true
unfolding goes_ahead maybe_require_destructive_elicitation destructive_effect get_destructive_policy
    destructive_elicitation_enabled client_can_use_return_based_elicitation mcp_input_responses
    mcp_request_state verify_destructive_elicitation_state parse_destructive_elicitation_state
    prefixed destructive_target_digest check_destructive has_destructive_elicitation_consent
approved = refl

refused_for_another :
    maybe_require_destructive_elicitation services other_bucket
    ≡ destructive_elicitation_refused "b2_delete_bucket"
        "approved destructive target did not match this call" refused
unfolding maybe_require_destructive_elicitation destructive_effect get_destructive_policy
    destructive_elicitation_enabled client_can_use_return_based_elicitation mcp_input_responses
    mcp_request_state verify_destructive_elicitation_state parse_destructive_elicitation_state
    prefixed destructive_target_digest
refused_for_another = refl

expired :
    maybe_require_destructive_elicitation services too_late
    ≡ destructive_elicitation_refused "b2_delete_bucket" "requestState expired" refused
unfolding maybe_require_destructive_elicitation destructive_effect get_destructive_policy
    destructive_elicitation_enabled client_can_use_return_based_elicitation mcp_input_responses
    mcp_request_state verify_destructive_elicitation_state parse_destructive_elicitation_state
    prefixed destructive_target_digest
expired = refl

legacy : goes_ahead services switched_off ≡ true
unfolding goes_ahead maybe_require_destructive_elicitation destructive_effect get_destructive_policy
    destructive_elicitation_enabled check_destructive has_destructive_elicitation_consent
legacy = refl

abbrev bulk : Fields
bulk = field "bucket" (str "b\n1") (
    field "objects"
      (arr (
        cons (obj (field "Key" (str "a  c") end))
          (cons null (cons null (cons null (cons null (cons null nil)))))))
      end)

shown :
    destructive_elicitation_message (λ s. s) "s3_delete_objects" "delete" bulk
    ≡ codes
        "s3_delete_objects would delete. Bucket: b 1. Object count: 6. Object 1 key: a c. Additional object targets: 1. Approve this destructive B2 operation?"
unfolding destructive_elicitation_message destructive_elicitation_details prompt_detail
    safe_prompt_value bulk_object_target_details lifecycle_rule_target_details
    notification_rule_target_details prompt_truncation_detail
shown = refl

goes_ahead_iff_example : (goes_ahead services second_call ≡ true) ↔ (
    (destructive_effect "b2_delete_bucket" args ≡ none)
    ⊎ ((effect : String) × (destructive_effect "b2_delete_bucket" args ≡ some effect)
        × Authorises services (get_destructive_policy config) second_call effect))
goes_ahead_iff_example = goes_ahead_iff services second_call

maybe_require_destructive_elicitation-IsAudited_example :
    IsAudited second_call (maybe_require_destructive_elicitation services second_call)
maybe_require_destructive_elicitation-IsAudited_example =
    maybe_require_destructive_elicitation-IsAudited services second_call

found : destructive_effect "b2_delete_bucket" args ≡ some effect
unfolding destructive_effect
found = refl

config-IsElicited : IsElicited (get_destructive_policy config)
unfolding get_destructive_policy
config-IsElicited = tt

askable : can_ask services first_call ≡ true
unfolding destructive_elicitation_enabled client_can_use_return_based_elicitation
askable = refl

askable_again : can_ask services second_call ≡ true
unfolding destructive_elicitation_enabled client_can_use_return_based_elicitation
askable_again = refl

unanswered : answer_of services first_call ≡ missing
unfolding mcp_input_responses
unanswered = refl

no_state : mcp_request_state (request undefined undefined) ≡ undefined
unfolding mcp_request_state
no_state = refl

given_state : mcp_request_state approving ≡ str (String.◌++◌ request_state_prefix "token")
unfolding mcp_request_state
given_state = refl

agreed : IsYes (answer_of services second_call)
unfolding mcp_input_responses
agreed = refl

read : codec.verify "token" ≡ some (payload (state_for services first_call effect))
unfolding destructive_target_digest
read = refl

goes_ahead-again_example :
    (maybe_require_destructive_elicitation services first_call ≡ (
      input_required
          (destructive_elicitation_message (λ s. s) "b2_delete_bucket" effect args)
          (String.◌++◌ request_state_prefix "token"),
      requested ∷ [],
    ))
    × (goes_ahead services second_call ≡ true)
goes_ahead-again_example =
    goes_ahead-again services first_call effect "token" codec approving 600000 found
      config-IsElicited refl refl read askable unanswered no_state askable_again (omega arith)
      given_state agreed
