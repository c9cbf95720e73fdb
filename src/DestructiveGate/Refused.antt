-- ===== src/DestructiveGate/Refused.antt =====
-- How the gate of src/utils/destructive-gate.ts refuses a call, and what can come of trying again.
use Prim.Native.String
use b2_mcp.Base.{
  Bool, Option, Option-cases, String, false, if◌then◌else◌, inl, inr, refl, some, subst, sym, true,
  ℕ, ◌∙◌, ◌≡◌, ◌≢◌,
}
use b2_mcp.Json.{Fields, Json, bool, get, get-set_field}
use b2_mcp.DestructiveGate.Detectors.{destructive_effect}
use b2_mcp.DestructiveGate.Digest.{B2Config, destructive_target_digest}
use b2_mcp.DestructiveGate.Check.{
  DestructiveConsent, DestructivePolicy, GateResult, Refusal, allow, allowed, block, blocked,
  check_destructive, confirm, elicit, gate, get_destructive_policy,
  has_destructive_elicitation_consent, refusal, refused_to,
}
use b2_mcp.DestructiveGate.Decision.{Permits, check_destructive_iff}
use b2_mcp.DestructiveGate.Confirm.{check_destructive-confirm, with_confirm}

-- The message has the effect in it.
abbrev pub Names : String → String → Type 0
Names effect message =
    (before : String) × (after : String) × (message ≡ String.◌++◌ before (String.◌++◌ effect after))

block_not_confirm : block ≢ confirm
block_not_confirm e = cc

elicit_not_confirm : elicit ≢ confirm
elicit_not_confirm e = cc

blocked_same : (a b : Refusal) → blocked a ≡ blocked b → a ≡ b
blocked_same a b e = cc

not_allowed :
    (b : Bool) (q : GateResult) (r : Refusal)
    → (if b then allowed else q) ≡ blocked r
    → q ≡ blocked r
not_allowed true q r e = cc
not_allowed false q r e = e

refusal_facts :
    (status : ℕ) (code effect why : String) (r : Refusal)
    → refusal status code (refused_to effect why) ≡ blocked r
    → Names effect r.message × (r.status ≡ status) × (r.code ≡ code)
refusal_facts status code effect why r e =
    subst (λ q. Names effect q.message × (q.status ≡ status) × (q.code ≡ code)) (blocked_same _ r e)
      (("Refused: this would ", why, refl), refl, refl)

module _ (stringify : Json → String) (hmac : String → String → String) (nul : String) where
  abbrev pub checked : Option DestructiveConsent → String → Fields → B2Config → GateResult
  checked consent tool args c =
      check_destructive (destructive_target_digest stringify hmac nul) consent tool args c

  abbrev pub approval_of : String → Fields → B2Config → Option DestructiveConsent
  approval_of tool args c = some (record {
    tool_name = tool;
    args_digest = destructive_target_digest stringify hmac nul c args;
  })

  -- The status and the code of a refusal, and whether a second try gets through.
  abbrev pub IsRefusal :
      DestructivePolicy → Option DestructiveConsent → String → Fields → B2Config → Refusal → Type 0
  IsRefusal allow consent tool args c r = ⊥
  IsRefusal block consent tool args c r =
      (r.status ≡ 403)
      × (r.code ≡ "destructive_policy_blocked")
      × ((other : Option DestructiveConsent) (v : Json)
          → checked other tool (with_confirm v args) c ≡ blocked r)
  IsRefusal elicit consent tool args c r =
      (r.status ≡ 409)
      × (r.code ≡ "destructive_confirmation_refused")
      × ((v : Json) → checked consent tool (with_confirm v args) c ≡ blocked r)
      × (checked (approval_of tool args c) tool args c ≡ allowed)
  IsRefusal confirm consent tool args c r =
      (r.status ≡ 409)
      × (r.code ≡ "destructive_confirmation_required")
      × (checked consent tool (with_confirm (bool true) args) c ≡ allowed)
      × (checked (approval_of tool args c) tool args c ≡ allowed)

  module _ (tool : String) (args : Fields) (c : B2Config) (effect : String)
      (same : destructive_effect tool args ≡ some effect) where
    -- A call with this effect is up to the policy.
    checked-gate :
        (consent : Option DestructiveConsent) (p : DestructivePolicy)
        → get_destructive_policy c ≡ p
        → checked consent tool args c
          ≡ gate
              (destructive_target_digest stringify hmac nul)
              consent
              p
              (has_destructive_elicitation_consent consent tool
                (destructive_target_digest stringify hmac nul c args))
              (get "confirm" args)
              effect
    unfolding check_destructive
    checked-gate consent p policy = rw (same, policy)

    approved :
        (p : DestructivePolicy)
        → get_destructive_policy c ≡ p
        → Permits
            (destructive_target_digest stringify hmac nul)
            (approval_of tool args c)
            p
            tool
            args
            c
        → checked (approval_of tool args c) tool args c ≡ allowed
    approved p policy permits =
        let (to, from) =
          check_destructive_iff (destructive_target_digest stringify hmac nul)
            (approval_of tool args c) tool args c in
        from (
          inr (
            subst
              (λ q.
                Permits (destructive_target_digest stringify hmac nul) (approval_of tool args c) q
                  tool args c)
              (sym policy) permits))

    unmoved :
        (consent : Option DestructiveConsent) (v : Json)
        → get_destructive_policy c ≢ confirm
        → checked consent tool (with_confirm v args) c ≡ checked consent tool args c
    unmoved consent v other =
        let (unchanged, digest) =
          check_destructive-confirm stringify hmac nul consent tool args c v other in
        unchanged

    told :
        (consent : Option DestructiveConsent) (v : Json)
        → get_destructive_policy c ≡ confirm
        → v ≡ bool true
        → checked consent tool (with_confirm v args) c ≡ allowed
    told consent v policy agreed =
        let (to, from) =
          check_destructive_iff (destructive_target_digest stringify hmac nul) consent tool
            (with_confirm v args) c in
        from (
          inr (
            subst
              (λ q.
                Permits (destructive_target_digest stringify hmac nul) consent q tool
                  (with_confirm v args) c)
              (sym policy) (inr (get-set_field "confirm" "confirm" v args ∙ agreed))))

    refused-IsRefusal :
        (consent : Option DestructiveConsent) (p : DestructivePolicy) (r : Refusal)
        → get_destructive_policy c ≡ p
        → checked consent tool args c ≡ blocked r
        → Names effect r.message × IsRefusal p consent tool args c r
    refused-IsRefusal consent allow r policy e = cc (sym (checked-gate consent allow policy) ∙ e)
    refused-IsRefusal consent block r policy e =
        let (named, status, code) =
          refusal_facts 403 "destructive_policy_blocked" effect _ r
            (sym (checked-gate consent block policy) ∙ e) in
        (
          named,
          (
            status,
            code,
            λ other v.
                unmoved other v (λ g. block_not_confirm (sym policy ∙ g))
                ∙ checked-gate other block policy
                ∙ sym (checked-gate consent block policy)
                ∙ e,
          ),
        )
    refused-IsRefusal consent elicit r policy e =
        let (named, status, code) =
          refusal_facts 409 "destructive_confirmation_refused" effect _ r
            (not_allowed _ _ r (sym (checked-gate consent elicit policy) ∙ e)) in
        (
          named,
          (
            status,
            code,
            (λ v. unmoved consent v (λ g. elicit_not_confirm (sym policy ∙ g)) ∙ e),
            approved elicit policy refl,
          ),
        )
    refused-IsRefusal consent confirm r policy e =
        let (named, status, code) =
          refusal_facts 409 "destructive_confirmation_required" effect _ r (
            not_allowed _ _ r
              (not_allowed _ _ r (sym (checked-gate consent confirm policy) ∙ e))) in
        (
          named,
          (status, code, told consent (bool true) policy refl, approved confirm policy (inl refl)),
        )

  -- A refused call has an irreversible effect, which its message names, and the code of the refusal
  -- says what comes of trying again. Under `block`, nothing helps: neither an approval nor the
  -- `confirm` argument. Under `elicit`, the `confirm` argument does not, an approval of this tool with
  -- these arguments does. Under `confirm`, either does.
  pub check_destructive-IsRefusal :
      (consent : Option DestructiveConsent) (tool : String) (args : Fields) (c : B2Config)
      (r : Refusal)
      → checked consent tool args c ≡ blocked r
      → (effect : String) × (destructive_effect tool args ≡ some effect)
        × Names effect r.message
        × IsRefusal (get_destructive_policy c) consent tool args c r
  unfolding check_destructive
  check_destructive-IsRefusal consent tool args c r e =
      elim (Option-cases (destructive_effect tool args)) [
        | inl harmless ↦ cc (rw harmless at e)
        | inr (effect, same) ↦
            let (named, rest) =
              refused-IsRefusal tool args c effect same consent (get_destructive_policy c) r refl
                e in
            (effect, same, named, rest)
      ]
