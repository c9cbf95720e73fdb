-- ===== src/ToolCapabilities/Tables.antt =====
-- The tables of src/utils/tool-capabilities.ts.
use b2_mcp.Base.{List, String, [], ◌∷◌}

abbrev pub tool_capabilities : List (String × List String)
tool_capabilities =
    ("b2_list_buckets", "listBuckets" ∷ [])
    ∷ ("b2_create_bucket", "writeBuckets" ∷ [])
    ∷ ("b2_update_bucket", "writeBuckets" ∷ [])
    ∷ ("b2_delete_bucket", "deleteBuckets" ∷ [])
    ∷ (
      "b2_get_bucket_notification_rules",
      "readBucketNotifications" ∷ "writeBucketNotifications" ∷ [],
    )
    ∷ ("b2_set_bucket_notification_rules", "writeBucketNotifications" ∷ [])
    ∷ ("b2_create_key", "writeKeys" ∷ [])
    ∷ ("b2_list_keys", "listKeys" ∷ [])
    ∷ ("b2_delete_key", "deleteKeys" ∷ [])
    ∷ ("b2_update_file_retention", "writeFileRetentions" ∷ [])
    ∷ ("b2_update_file_legal_hold", "writeFileLegalHolds" ∷ [])
    ∷ ("b2_report_usage_growth", "readFiles" ∷ [])
    ∷ ("b2_rank_egress_leaders", "readFiles" ∷ [])
    ∷ ("b2_list_largest_files", "listFiles" ∷ [])
    ∷ ("b2_unfinished_uploads", "listFiles" ∷ [])
    ∷ ("s3_put_object", "writeFiles" ∷ [])
    ∷ ("s3_get_object", "readFiles" ∷ [])
    ∷ ("s3_head_object", "readFiles" ∷ [])
    ∷ ("s3_copy_object", "writeFiles" ∷ [])
    ∷ ("s3_delete_object", "deleteFiles" ∷ [])
    ∷ ("s3_delete_objects", "deleteFiles" ∷ [])
    ∷ ("s3_list_objects_v2", "listFiles" ∷ [])
    ∷ ("s3_list_object_versions", "listFiles" ∷ [])
    ∷ ("s3_create_multipart_upload", "writeFiles" ∷ [])
    ∷ ("s3_get_presigned_upload_part_url", "writeFiles" ∷ [])
    ∷ ("s3_complete_multipart_upload", "writeFiles" ∷ [])
    ∷ ("s3_abort_multipart_upload", "writeFiles" ∷ [])
    ∷ ("s3_list_parts", "listFiles" ∷ [])
    ∷ ("s3_list_multipart_uploads", "listFiles" ∷ [])
    ∷ ("s3_upload_part_copy", "writeFiles" ∷ [])
    ∷ ("s3_get_presigned_url", "readFiles" ∷ "writeFiles" ∷ [])
    ∷ ("s3_head_bucket", "listBuckets" ∷ [])
    ∷ ("s3_get_bucket_location", "listBuckets" ∷ [])
    ∷ ("s3_put_bucket_lifecycle", "writeBuckets" ∷ [])
    ∷ []

pub data ScopeTier : Type 0 where
  read write admin : ScopeTier

abbrev pub oauth_tool_scope_policies : List (String × ScopeTier)
oauth_tool_scope_policies =
    ("b2_authorize_account", read)
    ∷ ("b2_create_bucket", write)
    ∷ ("b2_create_group_member", admin)
    ∷ ("b2_create_key", admin)
    ∷ ("b2_delete_bucket", write)
    ∷ ("b2_delete_key", admin)
    ∷ ("b2_eject_group_member", admin)
    ∷ ("b2_rank_egress_leaders", read)
    ∷ ("b2_get_bucket_notification_rules", admin)
    ∷ ("b2_list_largest_files", read)
    ∷ ("b2_list_buckets", read)
    ∷ ("b2_list_group_members", admin)
    ∷ ("b2_list_groups", admin)
    ∷ ("b2_list_keys", admin)
    ∷ ("b2_reserve_trial_create_account", admin)
    ∷ ("b2_set_bucket_notification_rules", admin)
    ∷ ("b2_unfinished_uploads", read)
    ∷ ("b2_update_bucket", admin)
    ∷ ("b2_update_file_legal_hold", admin)
    ∷ ("b2_update_file_retention", admin)
    ∷ ("b2_report_usage_growth", read)
    ∷ ("s3_abort_multipart_upload", write)
    ∷ ("s3_complete_multipart_upload", write)
    ∷ ("s3_copy_object", write)
    ∷ ("s3_create_multipart_upload", write)
    ∷ ("s3_delete_object", write)
    ∷ ("s3_delete_objects", write)
    ∷ ("s3_get_bucket_location", read)
    ∷ ("s3_get_object", read)
    ∷ ("s3_get_presigned_url", read)
    ∷ ("s3_head_bucket", read)
    ∷ ("s3_head_object", read)
    ∷ ("s3_list_multipart_uploads", read)
    ∷ ("s3_list_object_versions", read)
    ∷ ("s3_list_objects_v2", read)
    ∷ ("s3_list_parts", read)
    ∷ ("s3_get_presigned_upload_part_url", write)
    ∷ ("s3_put_bucket_lifecycle", admin)
    ∷ ("s3_put_object", write)
    ∷ ("s3_upload_part_copy", write)
    ∷ []

abbrev pub read_only_operation_tool_names : List String
read_only_operation_tool_names =
    "b2_authorize_account" ∷ "b2_list_groups" ∷ "b2_list_group_members"
    ∷ "b2_get_bucket_notification_rules" ∷ []

abbrev pub non_read_only_tool_names : List String
non_read_only_tool_names = "s3_get_object" ∷ []

abbrev pub non_idempotent_destructive_tool_names : List String
non_idempotent_destructive_tool_names =
    "b2_create_key" ∷ "b2_create_group_member" ∷ "b2_reserve_trial_create_account"
    ∷ "s3_delete_object" ∷ "s3_delete_objects" ∷ []

abbrev pub idempotent_non_readonly_tool_names : List String
idempotent_non_readonly_tool_names =
    "s3_put_object" ∷ "s3_copy_object" ∷ "s3_upload_part_copy" ∷ "s3_complete_multipart_upload"
    ∷ "s3_get_presigned_upload_part_url" ∷ []

abbrev pub durable_secret_producing_tools : List String
durable_secret_producing_tools =
    "b2_create_key" ∷ "b2_create_group_member" ∷ "b2_reserve_trial_create_account" ∷ []

abbrev pub partner_tools : List String
partner_tools =
    "b2_list_groups" ∷ "b2_create_group_member" ∷ "b2_eject_group_member" ∷ "b2_list_group_members"
    ∷ "b2_reserve_trial_create_account" ∷ []
