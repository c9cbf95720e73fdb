-- ===== src/Registration/Tests.antt =====
-- Registrations and presigned URLs at concrete keys and tokens, and the theorems there.
use b2_mcp.Base.{
  List, Option, String, [], arith, false, inl, none, refl, some, str_eq_iff, true, ℕ, ◌∷◌, ◌≡◌, ◌⊎◌,
}
use b2_mcp.Json.{Fields, bool}
use b2_mcp.DestructiveGate.Detectors.{destructive_effect}
use b2_mcp.DestructiveGate.Digest.{B2Config}
use b2_mcp.DestructiveGate.Check.{
  check_destructive, get_destructive_policy, has_destructive_elicitation_consent,
}
use b2_mcp.ToolCapabilities.Access.{
  IsSubset, is_tool_allowed_by_oauth_scopes, is_tool_enabled, oauth_scopes_allow_operation,
}
use b2_mcp.Registration.Surface.{
  presigned_options, registers_presigned, should_register_for_resolved_authz,
}
use b2_mcp.Registration.Presigned.{
  PresignArgs, get_presigned_url, missing, put_object, refused, url,
}
use b2_mcp.Registration.Laws.{
  IsLicensed, presigned_tool, presigned_tool-IsLicensed, should_register_mono,
}

abbrev reading : List String
reading = "readFiles" ∷ []

abbrev both : List String
both = "readFiles" ∷ "writeFiles" ∷ []

abbrev read_only : List String
read_only = "b2:read" ∷ []

registered :
    (should_register_for_resolved_authz true none none "s3_head_object" ≡ true)
    × (should_register_for_resolved_authz true none none "b2_list_groups" ≡ false)
    × (should_register_for_resolved_authz false (some reading) (some read_only) "s3_put_object"
        ≡ false)
    × (registers_presigned false (some both) (some read_only) ≡ true)
unfolding should_register_for_resolved_authz registers_presigned is_tool_enabled
    is_tool_allowed_by_oauth_scopes
registered = (refl, refl, refl, refl)

abbrev upload : PresignArgs
upload = record {
  bucket = "b";
  key = "k";
  operation = put_object;
  expires_in = none;
  version_id = none;
  content_type = none;
  confirm = bool true;
}

abbrev confirming : B2Config
confirming = record {
  application_key = none;
  app_key = none;
  master_key = none;
  credential_fingerprint = none;
  destructive_policy = none;
}

abbrev digest : B2Config → Fields → String
digest c args = "d"

abbrev resolve : String → String → String → Option ℕ
resolve b k v = none

abbrev presign : PresignArgs → ℕ → String ⊎ ℕ
presign a expires = inl "https://u"

minted :
    presigned_tool resolve presign digest none confirming
      (some both)
      (some ("b2:write" ∷ []))
      upload
    ≡ url "https://u"
unfolding get_presigned_url presigned_options oauth_scopes_allow_operation check_destructive
    destructive_effect get_destructive_policy has_destructive_elicitation_consent
minted = refl

not_minted :
    presigned_tool resolve presign digest none confirming (some both) (some read_only) upload
    ≡ refused (missing "PutObject presigned URLs require the writeFiles capability.")
unfolding get_presigned_url presigned_options oauth_scopes_allow_operation
not_minted = refl

presigned_tool-IsLicensed_example :
    IsLicensed resolve presign digest none confirming
      (some both)
      (some ("b2:write" ∷ []))
      upload
      put_object
presigned_tool-IsLicensed_example =
    presigned_tool-IsLicensed resolve presign digest none confirming (some both)
      (some ("b2:write" ∷ [])) upload "https://u" minted

reading_within_both : IsSubset reading both
reading_within_both x e = ground (arith, str_eq_iff "readFiles" x)

small_surface :
    should_register_for_resolved_authz false (some reading) (some read_only) "s3_head_object" ≡ true
unfolding should_register_for_resolved_authz is_tool_enabled is_tool_allowed_by_oauth_scopes
small_surface = refl

should_register_mono_example :
    should_register_for_resolved_authz false (some both) none "s3_head_object" ≡ true
should_register_mono_example =
    should_register_mono false "s3_head_object" (some reading) (some both) (some read_only) none
      reading_within_both tt small_surface
