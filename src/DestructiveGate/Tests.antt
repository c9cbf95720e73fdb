-- ===== src/DestructiveGate/Tests.antt =====
-- The gate at concrete calls, and its theorems at these inputs.
use b2_mcp.Base.{Option, String, false, none, refl, some, true, ◌↔◌, ◌≡◌, ◌≢◌, ◌⊎◌}
use b2_mcp.Json.{Fields, Json, bool, end, field, str}
use b2_mcp.DestructiveGate.Detectors.{destructive_effect}
use b2_mcp.DestructiveGate.Digest.{B2Config, destructive_target_digest}
use b2_mcp.DestructiveGate.Check.{
  DestructiveConsent, allowed, check_destructive, confirm, elicit_message, get_destructive_policy,
  has_destructive_elicitation_consent, refusal,
}
use b2_mcp.DestructiveGate.Decision.{Permits, check_destructive_iff}
use b2_mcp.DestructiveGate.Refused.{IsRefusal, Names, check_destructive-IsRefusal}
use b2_mcp.DestructiveGate.Confirm.{check_destructive-confirm, with_confirm}
use Prim.Native.String

abbrev stringify : Json → String
stringify (str s) = String.◌++◌ "'" (String.◌++◌ s "'")
stringify (bool true) = "true"
stringify (bool false) = "false"
stringify _ = "null"

-- A stand-in for the keyed hash: it keeps its inputs apart.
abbrev hmac : String → String → String
hmac key text = String.◌++◌ key (String.◌++◌ "|" text)

abbrev digest : B2Config → Fields → String
digest = destructive_target_digest stringify hmac "\0"

abbrev eliciting : B2Config
eliciting = record {
  application_key = some "k";
  app_key = none;
  master_key = some "";
  credential_fingerprint = some "f";
  destructive_policy = some "elicit";
}

abbrev opened : Fields
opened = field "bucketId" (str "b") (
    field "confirm" (bool true)
      (field "bucketType" (str "allPublic") (field "fileLockEnabled" (bool false) end)))

effect_of :
    destructive_effect "b2_update_bucket" opened
    ≡ some "make the bucket PUBLIC (world-readable) and disable Object Lock"
unfolding destructive_effect
effect_of = refl

digested :
    digest eliciting opened
    ≡ "k\0f|b2-mcp-destructive-target-args\0{'bucketId':'b','bucketType':'allPublic','fileLockEnabled':false}"
unfolding destructive_target_digest
digested = refl

abbrev approval : Option DestructiveConsent
approval = some (record {
  tool_name = "b2_update_bucket";
  args_digest =
      "k\0f|b2-mcp-destructive-target-args\0{'bucketId':'b','bucketType':'allPublic','fileLockEnabled':false}";
})

approved : check_destructive digest approval "b2_update_bucket" opened eliciting ≡ allowed
unfolding check_destructive destructive_effect get_destructive_policy
    has_destructive_elicitation_consent destructive_target_digest
approved = refl

self_approved :
    check_destructive digest none "b2_update_bucket" opened eliciting
    ≡ refusal 409 "destructive_confirmation_refused"
        (elicit_message "make the bucket PUBLIC (world-readable) and disable Object Lock")
unfolding check_destructive destructive_effect get_destructive_policy
    has_destructive_elicitation_consent
self_approved = refl

check_destructive_iff_example :
    (check_destructive digest approval "b2_update_bucket" opened eliciting ≡ allowed) ↔ (
      (destructive_effect "b2_update_bucket" opened ≡ none)
      ⊎ Permits digest approval
          (get_destructive_policy eliciting)
          "b2_update_bucket"
          opened
          eliciting)
check_destructive_iff_example =
    check_destructive_iff digest approval "b2_update_bucket" opened eliciting

check_destructive-IsRefusal_example :
    (effect : String) × (destructive_effect "b2_update_bucket" opened ≡ some effect)
    × Names effect
        (elicit_message "make the bucket PUBLIC (world-readable) and disable Object Lock")
    × IsRefusal stringify hmac "\0"
        (get_destructive_policy eliciting)
        none
        "b2_update_bucket"
        opened
        eliciting
        (record {
          status = 409;
          code = "destructive_confirmation_refused";
          message =
              elicit_message "make the bucket PUBLIC (world-readable) and disable Object Lock";
        })
check_destructive-IsRefusal_example =
    check_destructive-IsRefusal stringify hmac "\0" none "b2_update_bucket" opened eliciting _
      self_approved

not_confirm : get_destructive_policy eliciting ≢ confirm
unfolding get_destructive_policy
not_confirm = cc

check_destructive-confirm_example :
    (check_destructive digest none "b2_update_bucket" (with_confirm (bool true) opened) eliciting
      ≡ check_destructive digest none "b2_update_bucket" opened eliciting)
    × (digest eliciting (with_confirm (bool true) opened) ≡ digest eliciting opened)
check_destructive-confirm_example =
    check_destructive-confirm stringify hmac "\0" none "b2_update_bucket" opened eliciting
      (bool true) not_confirm
