-- ===== src/Elicitation/Message.antt =====
-- destructiveElicitationMessage of src/utils/destructive-elicitation.ts: what a human is asked to
-- approve.
use b2_mcp.Base.{
  Bool, List, String, [], codes, false, filter, if◌then◌else◌, length, suc, take, ℕ, ◌++◌, ◌||◌,
  ◌∷◌,
}
use b2_mcp.Json.{Fields, Json, arr, get, is_true, null, num, obj}
use b2_mcp.Csv.{Units}
use b2_mcp.Toon.Columns.{decimal}
use b2_mcp.Elicitation.Client.{has_field}
use b2_mcp.Elicitation.Prompt.{
  count_items, joined, list_items, prompt_detail, prompt_list_detail, prompt_target_detail_limit,
  prompt_truncation_detail, record_object, record_value, utf16, value_in,
}

abbrev pub prompt_fields : List (String × String)
prompt_fields =
    ("Bucket ID", "bucketId")
    ∷ ("Bucket", "bucket")
    ∷ ("Object key", "key")
    ∷ ("Version ID", "versionId")
    ∷ ("File ID", "fileId")
    ∷ ("File name", "fileName")
    ∷ ("Application key ID", "applicationKeyId")
    ∷ ("Application key name", "keyName")
    ∷ ("Admin account ID", "adminAccountId")
    ∷ ("Group ID", "groupId")
    ∷ ("Member account ID", "memberAccountId")
    ∷ ("Member email", "memberEmail")
    ∷ ("Account email", "email")
    ∷ ("Operation", "operation")
    ∷ ("Expiry seconds", "expiresIn")
    ∷ ("Upload ID", "uploadId")
    ∷ []

abbrev pub array_count : Json → Json
array_count (arr xs) = num (count_items xs)
array_count _ = null

abbrev pub schedules_removal : Json → Bool
schedules_removal (obj fs) = has_field "expiration" fs || has_field "noncurrentVersionExpiration" fs
schedules_removal _ = false

abbrev pub lifecycle_deletion_rule_count : Json → Json
lifecycle_deletion_rule_count (arr xs) = num (length (filter schedules_removal (list_items xs)))
lifecycle_deletion_rule_count _ = null

-- `${name} ${index + 1} ${what}`
abbrev pub numbered : String → ℕ → String → Units
numbered name index what = codes name ++ 32 ∷ decimal (suc index) ++ 32 ∷ codes what

-- The details of the targets at the indices from `index` on; what is no object has none.
abbrev pub each_target : (ℕ → Fields → List Units) → ℕ → List Json → List Units
each_target describe index [] = []
each_target describe index (obj fs ∷ vs) = describe index fs ++ each_target describe (suc index) vs
each_target describe index (v ∷ vs) = each_target describe (suc index) vs

module _ (sanitize : Units → Units) where
  -- The first targets of a list, and how many more there are.
  abbrev pub target_details : (ℕ → Fields → List Units) → String → Json → List Units
  target_details describe label (arr xs) =
      each_target describe 0 (take prompt_target_detail_limit (list_items xs))
      ++ prompt_truncation_detail (codes label) (count_items xs)
  target_details describe label _ = []

  abbrev pub object_target : ℕ → Fields → List Units
  object_target index fs =
      prompt_detail sanitize (numbered "Object" index "key") (record_value fs ("key" ∷ "Key" ∷ []))
      ++ prompt_detail sanitize (numbered "Object" index "version ID")
          (record_value fs ("versionId" ∷ "VersionId" ∷ []))

  unfoldable pub bulk_object_target_details : Json → List Units
  bulk_object_target_details v = target_details object_target "object targets" v

  abbrev pub rule_value : ℕ → Fields → String → List String → List String → List Units
  rule_value index rule what part keys =
      prompt_detail sanitize (numbered "Rule" index what) (value_in (record_object rule part) keys)

  abbrev pub lifecycle_rule_target : ℕ → Fields → List Units
  lifecycle_rule_target index rule =
      prompt_detail sanitize (numbered "Rule" index "ID") (record_value rule ("id" ∷ "ID" ∷ []))
      ++ prompt_detail sanitize (numbered "Rule" index "status")
          (record_value rule ("status" ∷ "Status" ∷ []))
      ++ rule_value index rule "prefix" ("filter" ∷ "Filter" ∷ []) ("prefix" ∷ "Prefix" ∷ [])
      ++ rule_value index rule "expiration days" ("expiration" ∷ "Expiration" ∷ [])
          ("days" ∷ "Days" ∷ [])
      ++ rule_value index rule "expired object delete marker" ("expiration" ∷ "Expiration" ∷ [])
          ("expiredObjectDeleteMarker" ∷ "ExpiredObjectDeleteMarker" ∷ [])
      ++ rule_value index rule "noncurrent expiration days"
          ("noncurrentVersionExpiration" ∷ "NoncurrentVersionExpiration" ∷ [])
          ("noncurrentDays" ∷ "NoncurrentDays" ∷ [])
      ++ rule_value index rule "abort incomplete upload days"
          ("abortIncompleteMultipartUpload" ∷ "AbortIncompleteMultipartUpload" ∷ [])
          ("daysAfterInitiation" ∷ "DaysAfterInitiation" ∷ [])

  unfoldable pub lifecycle_rule_target_details : Json → List Units
  lifecycle_rule_target_details v = target_details lifecycle_rule_target "lifecycle rules" v

  abbrev pub notification_rule_target : ℕ → Fields → List Units
  notification_rule_target index rule =
      prompt_detail sanitize (numbered "Notification rule" index "name")
        (record_value rule ("name" ∷ []))
      ++ prompt_detail sanitize (numbered "Notification rule" index "object prefix")
          (record_value rule ("objectNamePrefix" ∷ []))
      ++ prompt_list_detail sanitize (numbered "Notification rule" index "event types")
          (record_value rule ("eventTypes" ∷ []))
      ++ prompt_detail sanitize (numbered "Notification rule" index "enabled")
          (record_value rule ("isEnabled" ∷ []))

  unfoldable pub notification_rule_target_details : Json → List Units
  notification_rule_target_details v =
      target_details notification_rule_target "notification rules" v

  abbrev pub field_details : Fields → List (String × String) → List Units
  field_details args [] = []
  field_details args ((label, key) ∷ fields) =
      prompt_detail sanitize (codes label) (get key args) ++ field_details args fields

  unfoldable pub destructive_elicitation_details : Fields → List Units
  destructive_elicitation_details args =
      field_details args prompt_fields
      ++ prompt_detail sanitize (codes "Object count") (array_count (get "objects" args))
      ++ bulk_object_target_details (get "objects" args)
      ++ prompt_detail sanitize (codes "Rule count") (array_count (get "rules" args))
      ++ lifecycle_rule_target_details (get "rules" args)
      ++ prompt_detail sanitize (codes "Notification rule count")
          (array_count (get "eventNotificationRules" args))
      ++ notification_rule_target_details (get "eventNotificationRules" args)
      ++ prompt_detail sanitize (codes "Deletion rule count")
          (lifecycle_deletion_rule_count (get "rules" args))
      ++ (if is_true (get "bypassGovernance" args)
          then codes "Governance bypass requested." ∷ []
          else [])

  unfoldable pub destructive_elicitation_message : String → String → Fields → Units
  destructive_elicitation_message tool effect args = joined (codes " ") (
      (utf16 tool ++ codes " would " ++ sanitize (utf16 effect) ++ codes ".")
        ∷ destructive_elicitation_details args
      ++ codes "Approve this destructive B2 operation?" ∷ [])
