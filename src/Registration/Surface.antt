-- ===== src/Registration/Surface.antt =====
-- createServer of src/server.ts: the test that decides on each tool, and the flags that it hands
-- to the presigned-URL tool. `caps` is the key's capabilities, `none` where no list was given.
use b2_mcp.Base.{
  Bool, List, Option, String, includes, is_some, lookup, none, not, some, str_eq, true, ◌&&◌, ◌||◌,
}
use b2_mcp.ToolCapabilities.Tables.{partner_tools, read, tool_capabilities, write}
use b2_mcp.ToolCapabilities.Access.{
  is_tool_allowed_by_oauth_scopes, is_tool_enabled, oauth_scopes_allow_operation,
}

-- `TOOL_CAPABILITIES[name] !== undefined && !PARTNER_TOOLS.has(name)`, or the one tool that is
-- always there, where the key's capabilities could not be read in time.
abbrev pub survives_fail_closed : String → Bool
survives_fail_closed name =
    str_eq name "b2_authorize_account"
    || (is_some (lookup name tool_capabilities) && not (includes name partner_tools))

unfoldable pub should_register_for_resolved_authz :
    Bool → Option (List String) → Option (List String) → String → Bool
should_register_for_resolved_authz fail_closed caps scopes name =
    (not fail_closed || survives_fail_closed name)
    && is_tool_enabled name caps
    && is_tool_allowed_by_oauth_scopes name scopes

-- `!filterActive || capsSet.has(capability)`
abbrev pub key_has : Option (List String) → String → Bool
key_has none c = true
key_has (some caps) c = includes c caps

pub record PresignedOptions : Type 0 where
  pub allow_get_object_url : Bool
  pub allow_put_object_url : Bool
  pub allow_explicit_version_inspection : Bool

unfoldable pub presigned_options : Option (List String) → Option (List String) → PresignedOptions
presigned_options caps scopes = record {
  allow_get_object_url = key_has caps "readFiles" && oauth_scopes_allow_operation scopes read;
  allow_put_object_url = key_has caps "writeFiles" && oauth_scopes_allow_operation scopes write;
  allow_explicit_version_inspection = key_has caps "readFiles";
}

-- The tool is registered where one of its operations is allowed, and the test lets it through.
unfoldable pub registers_presigned : Bool → Option (List String) → Option (List String) → Bool
unfolding presigned_options
registers_presigned fail_closed caps scopes =
    let o = presigned_options caps scopes in
    (o.allow_get_object_url || o.allow_put_object_url)
    && should_register_for_resolved_authz fail_closed caps scopes "s3_get_presigned_url"
