-- ===== src/Elicitation/Approval.antt =====
-- When the second round of src/utils/destructive-elicitation.ts runs the handler, and what its gate
-- then says.
use b2_mcp.Base.{Bool-cases, Option, String, false, inl, inr, none, refl, some, true, ◌↔◌, ◌≡◌}
use b2_mcp.Json.{bool, fields_of, get, is_true, is_true_iff, is_undefined}
use b2_mcp.DestructiveGate.Check.{
  DestructivePolicy, GateResult, allow, allowed, block, blocked, confirm, elicit,
  get_destructive_policy, is_allowed,
}
use b2_mcp.Elicitation.State.{DestructiveElicitationState}
use b2_mcp.Elicitation.Client.{
  InputResponse, accept, cancel, decline, elicited, mcp_request_state, missing, other_kind,
}
use b2_mcp.Elicitation.Decide.{
  Call, Services, StateVerification, answer_of, ask, codec_of, destructive_elicitation_refused,
  digest_of, gated, mint_destructive_elicitation_state, on_response, on_verification, presented,
  requested_with, resume, runs_with_consent, unverified, verified,
  verify_destructive_elicitation_state,
}
use b2_mcp.Elicitation.Verify.{IsStateOf, verified_iff}
use b2_mcp.DestructiveGate.Detectors.{destructive_effect}
use b2_mcp.DestructiveGate.Decision.{Permits, check_destructive_iff}

abbrev pub IsElicited : DestructivePolicy → Type 0
IsElicited elicit = Unit
IsElicited confirm = Unit
IsElicited _ = ⊥

-- A human's answer that approves.
abbrev pub IsYes : InputResponse → Type 0
IsYes (elicited accept content) = get "confirm" (fields_of content) ≡ bool true
IsYes _ = ⊥

pub is_allowed_iff : (r : GateResult) → (is_allowed r ≡ true) ↔ (r ≡ allowed)
is_allowed_iff allowed = (λ e. refl, λ e. refl)
is_allowed_iff (blocked r) = (λ e. cc, λ e. cc)

module _ (sv : Services) where
  permitted :
      (p : DestructivePolicy) (k : Call)
      → IsElicited p
      → Permits sv.digest
          (some (record { tool_name = k.tool_name; args_digest = digest_of sv k }))
          p
          k.tool_name
          k.args
          k.config
  permitted elicit k h = refl
  permitted confirm k h = inl refl
  permitted allow k h = absurd h
  permitted block k h = absurd h

  -- With the approval of this call installed, the gate lets it through.
  consented :
      (k : Call) (effect : String)
      → destructive_effect k.tool_name k.args ≡ some effect
      → IsElicited (get_destructive_policy k.config)
      → gated sv k
          (runs_with_consent (record { tool_name = k.tool_name; args_digest = digest_of sv k }))
        ≡ true
  consented k effect found p = (is_allowed_iff _).1 (
      (check_destructive_iff sv.digest
          (some (record { tool_name = k.tool_name; args_digest = digest_of sv k })) k.tool_name
          k.args k.config).1
        (inr (permitted (get_destructive_policy k.config) k p)))

  on_response_iff :
      (k : Call) (effect : String) (r : InputResponse)
      → destructive_effect k.tool_name k.args ≡ some effect
      → IsElicited (get_destructive_policy k.config)
      → (gated sv k (on_response sv k r).0 ≡ true) ↔ IsYes r
  unfolding destructive_elicitation_refused
  on_response_iff k effect (elicited accept content) found p =
      elim (Bool-cases (is_true (get "confirm" (fields_of content)))) [
        | inl given ↦ rw given (λ e. (is_true_iff _).0 given, λ e. consented k effect found p)
        | inr missing_yes ↦ rw missing_yes (λ e. cc, λ e. cc ((is_true_iff _).1 e))
      ]
  on_response_iff k effect (elicited decline content) found p = (λ e. cc, λ e. absurd e)
  on_response_iff k effect (elicited cancel content) found p = (λ e. cc, λ e. absurd e)
  on_response_iff k effect missing found p = (λ e. cc, λ e. absurd e)
  on_response_iff k effect other_kind found p = (λ e. cc, λ e. absurd e)

  ask-waits : (k : Call) (effect : String) → gated sv k (ask sv k effect).0 ≡ false
  unfolding destructive_elicitation_refused
  ask-waits k effect = elim (Bool-cases (is_undefined (mcp_request_state k.extra))) [
    | inl first ↦ rw first (waits (mint_destructive_elicitation_state sv k effect))
    | inr later ↦ rw later
  ]
    where
      waits :
          (o : Option String)
          → gated sv k (requested_with sv (sv.message k.tool_name effect k.args) o).0 ≡ false
      waits none = refl
      waits (some s) = refl

  -- With the answer comes a state that the codec accepts, of this tool, this effect and these
  -- arguments, at most ten minutes old.
  abbrev pub IsStated : Call → String → Type 0
  IsStated k effect =
      (s : DestructiveElicitationState) × (presented (codec_of sv k) (mcp_request_state k.extra)
        ≡ some s)
      × IsStateOf k.now k.tool_name effect (digest_of sv k) s

  abbrev pub IsApproved : Call → String → Type 0
  IsApproved k effect = IsStated k effect × IsYes (answer_of sv k)

  on_verification_iff :
      (k : Call) (effect : String) (r : InputResponse)
      → destructive_effect k.tool_name k.args ≡ some effect
      → IsElicited (get_destructive_policy k.config)
      → (gated sv k
            (on_verification sv k r (
              verify_destructive_elicitation_state
                (codec_of sv k)
                (mcp_request_state k.extra)
                k.now
                k.tool_name
                effect
                (digest_of sv k))).0
          ≡ true)
        ↔ (IsStated k effect × IsYes r)
  unfolding destructive_elicitation_refused
  on_verification_iff k effect r found p = by_verification _ refl
    where
      by_verification :
          (w : StateVerification)
          → verify_destructive_elicitation_state
              (codec_of sv k)
              (mcp_request_state k.extra)
              k.now
              k.tool_name
              effect
              (digest_of sv k)
            ≡ w
          → (gated sv k (on_verification sv k r w).0 ≡ true) ↔ (IsStated k effect × IsYes r)
      by_verification (unverified why) e = (
        λ g. cc,
        λ h.
            let ((t, given, mine), agreed) = h in
            cc (
              (verified_iff (codec_of sv k) (mcp_request_state k.extra) k.now k.tool_name effect
                    (digest_of sv k) t).1
                  (given, mine),
              e,
            ),
      )
      by_verification (verified s) e =
          let (to, from) = on_response_iff k effect r found p in
          let (given, of_this) =
            (verified_iff (codec_of sv k) (mcp_request_state k.extra) k.now k.tool_name effect
                (digest_of sv k) s).0
              e in
          (λ g. ((s, given, of_this), to g), λ h. from (h.1))

  pub resume_iff :
      (k : Call) (effect : String) (r : InputResponse)
      → destructive_effect k.tool_name k.args ≡ some effect
      → IsElicited (get_destructive_policy k.config)
      → (gated sv k (resume sv k effect r).0 ≡ true) ↔ (IsStated k effect × IsYes r)
  resume_iff k effect missing found p = (λ e. cc (ask-waits k effect), λ h. absurd (h.1))
  resume_iff k effect (elicited a content) found p =
      on_verification_iff k effect (elicited a content) found p
  resume_iff k effect other_kind found p = on_verification_iff k effect other_kind found p
