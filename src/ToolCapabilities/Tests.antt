-- ===== src/ToolCapabilities/Tests.antt =====
-- Access and annotations of concrete tools, and the theorems there.
use b2_mcp.Base.{List, Option, String, [], ap, false, includes, refl, some, true, ◌∷◌, ◌≡◌, ◌⊎◌}
use b2_mcp.Json.{Fields}
use b2_mcp.DestructiveGate.Digest.{B2Config}
use b2_mcp.DestructiveGate.Check.{DestructiveConsent, allowed, check_destructive}
use b2_mcp.ToolCapabilities.Tables.{non_read_only_tool_names, read_only_operation_tool_names}
use b2_mcp.ToolCapabilities.Access.{is_tool_allowed_by_oauth_scopes, is_tool_enabled}
use b2_mcp.ToolCapabilities.Annotations.{IsReadListed, annotations_for_tool, read_only_hint_sound}

abbrev reader : List String
reader = "listBuckets" ∷ "readFiles" ∷ []

abbrev writer : List String
writer = "readFiles" ∷ "listBuckets" ∷ "writeFiles" ∷ []

reader_tools :
    (is_tool_enabled "s3_get_object" (some reader) ≡ true)
    × (is_tool_enabled "s3_put_object" (some reader) ≡ false)
    × (is_tool_enabled "b2_authorize_account" (some []) ≡ true)
    × (is_tool_allowed_by_oauth_scopes "s3_put_object" (some ("b2:read" ∷ [])) ≡ false)
    × (is_tool_allowed_by_oauth_scopes "a_new_tool" (some ("b2:write" ∷ [])) ≡ false)
unfolding is_tool_enabled is_tool_allowed_by_oauth_scopes
reader_tools = (refl, refl, refl, refl, refl)

hints : annotations_for_tool "s3_head_object" ≡ record {
  read_only_hint = true;
  destructive_hint = false;
  idempotent_hint = true;
  open_world_hint = true;
}
unfolding annotations_for_tool
hints = refl

read_only_hint_sound_example :
    ((digest : B2Config → Fields → String) (consent : Option DestructiveConsent) (args : Fields)
        (c : B2Config)
      → check_destructive digest consent "s3_head_object" args c ≡ allowed)
    × ((annotations_for_tool "s3_head_object").destructive_hint ≡ false)
    × ((annotations_for_tool "s3_head_object").idempotent_hint ≡ true)
    × (includes "s3_head_object" non_read_only_tool_names ≡ false)
    × (IsReadListed "s3_head_object"
        ⊎ (includes "s3_head_object" read_only_operation_tool_names ≡ true))
read_only_hint_sound_example =
    read_only_hint_sound "s3_head_object" (ap (λ a. a.read_only_hint) hints)

-- A download can write a file, though its capability is to read.
download_hint : (annotations_for_tool "s3_get_object").read_only_hint ≡ false
unfolding annotations_for_tool
download_hint = refl
