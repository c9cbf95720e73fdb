-- ===== src/Elicitation/Audit.antt =====
-- What src/utils/destructive-elicitation.ts reports of each decision to `onDecision`.
use b2_mcp.Base.{
  Bool, Bool-cases, Option, String, [], false, if◌then◌else◌, inl, inr, none, not, refl, some, true,
  ◌∷◌, ◌≡◌, ◌⊎◌,
}
use b2_mcp.Json.{bool, fields_of, get, is_true, is_true_iff, is_undefined}
use b2_mcp.DestructiveGate.Detectors.{destructive_effect}
use b2_mcp.DestructiveGate.Check.{
  DestructivePolicy, allow, block, confirm, elicit, get_destructive_policy,
}
use b2_mcp.Elicitation.Client.{
  InputResponse, accept, cancel, decline, destructive_elicitation_enabled, elicited,
  mcp_request_state, missing, other_kind,
}
use b2_mcp.Elicitation.Decide.{
  Call, Decided, FallbackReason, RefusalOutcome, Services, StateVerification, accepted, answer_of,
  ask, by_policy, can_elicit, cancelled, client_cannot_elicit, declined,
  destructive_elicitation_refused, disabled_reason, elicitation_disabled, fallback_accepted,
  input_required, legacy_confirm_fallback, maybe_require_destructive_elicitation,
  mint_destructive_elicitation_state, mint_failed, not_given, on_response, on_verification,
  out_of_reach, refusal_message, refused, requested, requested_with, require_elicitation, resume,
  runs_original, runs_with_consent, tool_error, unable_reason, unverified, verified, with_effect,
}

-- The events that go with an outcome.
abbrev pub IsAudited : Call → Decided → Type 0
IsAudited k (runs_original, events) =
    (events ≡ [])
    ⊎ ((get "confirm" k.args ≡ bool true)
        × (f : FallbackReason) × (events ≡ fallback_accepted f ∷ []))
IsAudited k (runs_with_consent c, events) = events ≡ accepted ∷ []
IsAudited k (input_required text state, events) = events ≡ requested ∷ []
IsAudited k (tool_error r, events) =
    (o : RefusalOutcome) × (why : String) × (events ≡ not_given o why ∷ [])
    × (r.message ≡ refusal_message k.tool_name why)
    × (r.status ≡ 409)
IsAudited k (mint_failed, events) = events ≡ []

refused-IsAudited :
    (k : Call) (why : String) (o : RefusalOutcome)
    → IsAudited k (destructive_elicitation_refused k.tool_name why o)
unfolding destructive_elicitation_refused
refused-IsAudited k why o = (o, why, refl, refl, refl)

fallback-IsAudited :
    (k : Call) (f : FallbackReason) → IsAudited k (runs_original, legacy_confirm_fallback k.args f)
fallback-IsAudited k f = elim (Bool-cases (is_true (get "confirm" k.args))) [
  | inl given ↦ rw given (inr ((is_true_iff _).0 given, f, refl))
  | inr missing_yes ↦ rw missing_yes (inl refl)
]

out_of_reach-IsAudited :
    (p : DestructivePolicy) (k : Call) (f : FallbackReason) (why : String)
    → IsAudited k (out_of_reach p k f why)
out_of_reach-IsAudited elicit k f why = refused-IsAudited k why refused
out_of_reach-IsAudited confirm k f why = fallback-IsAudited k f
out_of_reach-IsAudited allow k f why = fallback-IsAudited k f
out_of_reach-IsAudited block k f why = fallback-IsAudited k f

module _ (sv : Services) where
  requested-IsAudited :
      (k : Call) (effect : String) (o : Option String)
      → IsAudited k (requested_with sv (sv.message k.tool_name effect k.args) o)
  requested-IsAudited k effect none = refl
  requested-IsAudited k effect (some s) = refl

  ask-IsAudited : (k : Call) (effect : String) → IsAudited k (ask sv k effect)
  ask-IsAudited k effect = elim (Bool-cases (is_undefined (mcp_request_state k.extra))) [
    | inl fresh ↦
        rw fresh (requested-IsAudited k effect (mint_destructive_elicitation_state sv k effect))
    | inr given ↦ rw given (refused-IsAudited k _ refused)
  ]

  on_response-IsAudited : (k : Call) (r : InputResponse) → IsAudited k (on_response sv k r)
  on_response-IsAudited k (elicited accept content) =
      elim (Bool-cases (is_true (get "confirm" (fields_of content)))) [
        | inl given ↦ rw given refl
        | inr missing_yes ↦ rw missing_yes (refused-IsAudited k _ refused)
      ]
  on_response-IsAudited k (elicited decline content) = refused-IsAudited k _ declined
  on_response-IsAudited k (elicited cancel content) = refused-IsAudited k _ cancelled
  on_response-IsAudited k missing = refused-IsAudited k _ refused
  on_response-IsAudited k other_kind = refused-IsAudited k _ refused

  on_verification-IsAudited :
      (k : Call) (r : InputResponse) (w : StateVerification)
      → IsAudited k (on_verification sv k r w)
  on_verification-IsAudited k r (verified s) = on_response-IsAudited k r
  on_verification-IsAudited k r (unverified why) = refused-IsAudited k why refused

  resume-IsAudited :
      (k : Call) (effect : String) (r : InputResponse) → IsAudited k (resume sv k effect r)
  resume-IsAudited k effect missing = ask-IsAudited k effect
  resume-IsAudited k effect (elicited a content) =
      on_verification-IsAudited k (elicited a content) _
  resume-IsAudited k effect other_kind = on_verification-IsAudited k other_kind _

  reach-IsAudited :
      (enabled able : Bool) (p : DestructivePolicy) (k : Call) (effect : String)
      → IsAudited k (
          if not enabled
          then out_of_reach p k elicitation_disabled disabled_reason
          else if not able
          then out_of_reach p k client_cannot_elicit unable_reason
          else resume sv k effect (answer_of sv k))
  reach-IsAudited true true p k effect = resume-IsAudited k effect (answer_of sv k)
  reach-IsAudited true false p k effect =
      out_of_reach-IsAudited p k client_cannot_elicit unable_reason
  reach-IsAudited false able p k effect =
      out_of_reach-IsAudited p k elicitation_disabled disabled_reason

  require-IsAudited :
      (p : DestructivePolicy) (k : Call) (effect : String)
      → IsAudited k (require_elicitation sv p k effect)
  require-IsAudited p k effect =
      reach-IsAudited (destructive_elicitation_enabled k.flag) (can_elicit sv k) p k effect

  by_policy-IsAudited :
      (p : DestructivePolicy) (k : Call) (effect : String) → IsAudited k (by_policy sv p k effect)
  by_policy-IsAudited allow k effect = inl refl
  by_policy-IsAudited block k effect = inl refl
  by_policy-IsAudited elicit k effect = require-IsAudited elicit k effect
  by_policy-IsAudited confirm k effect = require-IsAudited confirm k effect

  -- Each decision of the wrapper is reported by one event that fits it: an approval as accepted, a
  -- prompt as requested, and a refusal (status 409) with the reason that its message gives. A call
  -- that is left to the gate is reported only if it carries `confirm: true`, and a prompt whose
  -- state cannot be minted is not reported.
  pub maybe_require_destructive_elicitation-IsAudited :
      (k : Call) → IsAudited k (maybe_require_destructive_elicitation sv k)
  unfolding maybe_require_destructive_elicitation
  maybe_require_destructive_elicitation-IsAudited k =
      by_effect (destructive_effect k.tool_name k.args)
    where
      by_effect : (o : Option String) → IsAudited k (with_effect sv o k)
      by_effect none = inl refl
      by_effect (some effect) = by_policy-IsAudited (get_destructive_policy k.config) k effect
