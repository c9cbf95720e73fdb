-- ===== src/Elicitation/Client.antt =====
-- What src/utils/destructive-elicitation.ts reads of the request's context: whether a human can be
-- reached, and the answer that came back. The two keys of the envelope are constants of the SDK.
use b2_mcp.Base.{
  Bool, Option, String, codes, false, if◌then◌else◌, leb, map, none, not, some, str_eq, true, ◌&&◌,
  ◌+◌, ◌||◌,
}
use b2_mcp.Json.{Fields, Json, end, field, fields_of, get, null, obj, str, undefined}
use b2_mcp.Csv.{Units, is_nil, same_units, trim}
use b2_mcp.Elicitation.State.{RequestStateCodec}

-- `requestState` is a value, or a function that gives one.
pub data RequestState : Type 0 where
  held thunk : Json → RequestState

-- A property that is missing is undefined.
pub record McpReq : Type 0 where
  pub input_responses : Json
  pub request_state : RequestState
  pub client_capabilities : Json
  pub envelope : Fields

pub record McpRequestExtra : Type 0 where
  pub client_capabilities : Json
  pub mcp_req : Option McpReq

-- What the hooks answer, undefined where there is none.
pub record ContextProviders : Type 0 where
  pub capabilities : Json
  pub protocol_version : Option String
  pub codec : Option RequestStateCodec

-- What `inputResponse` of the SDK makes of an answer.
pub data Action : Type 0 where
  accept decline cancel : Action

pub data InputResponse : Type 0 where
  missing : InputResponse
  elicited : Action → Json → InputResponse
  other_kind : InputResponse

-- `a ?? b`
abbrev pub or_nullish : Json → Json → Json
or_nullish undefined b = b
or_nullish null b = b
or_nullish a b = a

abbrev pub state_value : RequestState → Json
state_value (held v) = v
state_value (thunk v) = v

unfoldable pub mcp_request_state : McpRequestExtra → Json
mcp_request_state extra = elim extra.mcp_req [
  | none ↦ undefined
  | some r ↦ state_value r.request_state
]

unfoldable pub mcp_input_responses : McpRequestExtra → Json
mcp_input_responses extra = elim extra.mcp_req [ none ↦ undefined | some r ↦ r.input_responses ]

abbrev pub has_field : String → Fields → Bool
has_field k end = false
has_field k (field j v fs) = str_eq j k || has_field k fs

-- A bare `{}` is the form mode; arrays and values that are no objects are no modes.
abbrev pub offers_form : Json → Bool
offers_form (obj end) = true
offers_form (obj fs) = has_field "form" fs
offers_form _ = false

abbrev pub lower_case : Units → Units
lower_case s = map (λ c. if leb 65 c && leb c 90 then c + 32 else c) s

-- The value of B2_DESTRUCTIVE_ELICITATION.
unfoldable pub destructive_elicitation_enabled : Option Units → Bool
destructive_elicitation_enabled none = true
destructive_elicitation_enabled (some value) =
    let flag = lower_case (trim value) in
    is_nil value
    || not (
        same_units flag (codes "0")
        || same_units flag (codes "false")
        || same_units flag (codes "off"))

module _ (client_capabilities_meta_key protocol_version_meta_key : String) where
  unfoldable pub mcp_client_capabilities : McpRequestExtra → Json
  mcp_client_capabilities extra = elim extra.mcp_req [
    | none ↦ extra.client_capabilities
    | some r ↦
        or_nullish r.client_capabilities
          (or_nullish (get client_capabilities_meta_key r.envelope) extra.client_capabilities)
  ]

  unfoldable pub client_supports_form_elicitation : McpRequestExtra → Json → Bool
  unfolding mcp_client_capabilities
  client_supports_form_elicitation extra provided =
      let capabilities = or_nullish provided (mcp_client_capabilities extra) in
      offers_form (get "elicitation" (fields_of capabilities))

  abbrev text_of : Json → Option String
  text_of (str s) = some s
  text_of _ = none

  abbrev envelope_version : Option McpReq → Option String
  envelope_version none = none
  envelope_version (some r) = text_of (get protocol_version_meta_key r.envelope)

  unfoldable pub mcp_protocol_version : McpRequestExtra → ContextProviders → Option String
  mcp_protocol_version extra p = elim p.protocol_version [
    | none ↦ envelope_version extra.mcp_req
    | some v ↦ if str_eq v "" then envelope_version extra.mcp_req else some v
  ]

  abbrev is_version : Option String → Bool
  is_version none = false
  is_version (some v) = str_eq v "2026-07-28"

  unfoldable pub request_supports_return_based_input : McpRequestExtra → ContextProviders → Bool
  unfolding mcp_protocol_version
  request_supports_return_based_input extra p = is_version (mcp_protocol_version extra p)

  unfoldable pub client_can_use_return_based_elicitation : McpRequestExtra → ContextProviders → Bool
  unfolding request_supports_return_based_input client_supports_form_elicitation
  client_can_use_return_based_elicitation extra p =
      request_supports_return_based_input extra p
      && client_supports_form_elicitation extra p.capabilities
