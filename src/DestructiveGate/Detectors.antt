-- ===== src/DestructiveGate/Detectors.antt =====
-- The detectors of src/utils/destructive-gate.ts: what each call would irreversibly do.
use Prim.Native.String
use b2_mcp.Base.{
  Bool, List, Option, String, [], if◌then◌else◌, is_some, lookup, none, not, some, ◌||◌, ◌∷◌,
}
use b2_mcp.Json.{
  Fields, Items, Json, cons, fields_of, get, is_false, is_null, is_nullish, is_str, is_true,
  is_undefined, items_of, nil, some_item,
}

abbrev pub Detector : Type 0
Detector = Fields → Option String

-- `reasons.length ? reasons.join(" and ") : null`
abbrev pub join_and : List String → Option String
join_and [] = none
join_and (r ∷ rs) = some (continue r rs)
  where
    continue : String → List String → String
    continue a [] = a
    continue a (b ∷ bs) = String.◌++◌ a (String.◌++◌ " and " (continue b bs))

abbrev pub reason : Bool → String → List String → List String
reason b text rest = if b then text ∷ rest else rest

abbrev pub when : Bool → String → Option String
when b text = if b then some text else none

abbrev pub update_file_retention : Detector
update_file_retention args = join_and (
    reason (is_null (get "mode" (fields_of (get "fileRetention" args))))
      "remove Object Lock retention from a file"
      (reason (is_true (get "bypassGovernance" args)) "bypass governance-mode retention" []))

abbrev pub schedules_expiration : Json → Bool
schedules_expiration r =
    not (is_nullish (get "expiration" (fields_of r)))
    || not (is_nullish (get "noncurrentVersionExpiration" (fields_of r)))

abbrev pub lifecycle_effect : Items → Option String
lifecycle_effect nil =
    some
      "clear the bucket's entire S3 lifecycle configuration, removing cleanup and expiration governance"
lifecycle_effect (cons r rules) =
    when (some_item schedules_expiration (cons r rules))
      "set a lifecycle rule that schedules deletion/expiration of objects (irreversible once it runs)"

abbrev pub put_bucket_lifecycle : Detector
put_bucket_lifecycle args = lifecycle_effect (items_of (get "rules" args))

abbrev pub schedules_deletion : Json → Bool
schedules_deletion r = not (is_nullish (get "daysFromHidingToDeleting" (fields_of r)))

abbrev pub update_bucket : Detector
update_bucket args = join_and (
    reason (is_str "allPublic" (get "bucketType" args)) "make the bucket PUBLIC (world-readable)" (
      reason (is_false (get "fileLockEnabled" args)) "disable Object Lock" (
        reason (is_null (get "mode" (fields_of (get "defaultRetention" args))))
          "clear the bucket's default Object Lock retention"
          (reason (some_item schedules_deletion (items_of (get "lifecycleRules" args)))
            "set a lifecycle rule that schedules permanent deletion of objects"
            (reason (not (is_undefined (get "replicationConfiguration" args)))
              "set bucket replication rules that can copy objects to another bucket" [])))))

abbrev pub always : String → Detector
always effect args = some effect

abbrev pub detectors : List (String × Detector)
detectors =
    ("b2_delete_bucket", always "permanently delete a bucket")
    ∷ ("s3_delete_object", always "permanently delete an object")
    ∷ (
      "s3_delete_objects",
      λ args. some (
          if is_true (get "bypassGovernance" args)
          then "permanently delete multiple objects and bypass governance-mode Object Lock retention (irreversible)"
          else "permanently delete multiple objects (irreversible)"),
    )
    ∷ (
      "s3_get_presigned_url",
      λ args.
          when (is_str "PutObject" (get "operation" args))
            "mint a PutObject presigned URL bearer capability that can create or overwrite object data",
    )
    ∷ (
      "s3_abort_multipart_upload",
      always "abort a multipart upload, discarding uploaded parts (irreversible)",
    )
    ∷ (
      "b2_delete_key",
      always "permanently delete an application key (anything using it loses access immediately)",
    )
    ∷ ("b2_create_key", always "create a durable application key credential")
    ∷ (
      "b2_eject_group_member",
      always "eject a Group member (locks them out; the account cannot be re-added via API)",
    )
    ∷ (
      "b2_create_group_member",
      always
          "create a real, non-deletable Backblaze account (irreversible; eject cannot remove it; has billing impact)",
    )
    ∷ (
      "b2_reserve_trial_create_account",
      always "create a real trial Backblaze account (irreversible; has billing impact)",
    )
    ∷ ("b2_update_file_retention", update_file_retention)
    ∷ (
      "b2_update_file_legal_hold",
      λ args.
          when (is_str "off" (get "legalHold" args))
            "remove a legal hold, making the file deletable again",
    )
    ∷ ("s3_put_bucket_lifecycle", put_bucket_lifecycle)
    ∷ ("b2_update_bucket", update_bucket)
    ∷ (
      "b2_set_bucket_notification_rules",
      always "replace persistent bucket event notification webhook rules",
    )
    ∷ []

abbrev pub names {ℓ} : {A : Type ℓ} → List (String × A) → List String
names [] = []
names ((k, a) ∷ m) = k ∷ names m

-- `Object.keys(DETECTORS)`; the source sorts them, which `has` does not depend on.
unfoldable pub destructive_tool_names : List String
destructive_tool_names = names detectors

unfoldable pub is_destructive_tool : String → Bool
is_destructive_tool tool = is_some (lookup tool detectors)

abbrev pub apply : Option Detector → Fields → Option String
apply none args = none
apply (some detect) args = detect args

unfoldable pub destructive_effect : String → Fields → Option String
destructive_effect tool args = apply (lookup tool detectors) args
