-- ===== src/Elicitation/Verify.antt =====
-- When verifyDestructiveElicitationState of src/utils/destructive-elicitation.ts accepts a state.
use b2_mcp.Base.{
  Bool, Option, String, arith, false, if◌then◌else◌, none, refl, some, str_eq_iff, subst, true, ℕ,
  ◌+◌, ◌↔◌, ◌≡◌, ◌≤◌,
}
use b2_mcp.Json.{Json, undefined}
use b2_mcp.Elicitation.State.{
  DestructiveElicitationState, RequestStateCodec, max_age_ms, parse_destructive_elicitation_state,
}
use b2_mcp.Elicitation.Decide.{
  check_state, is_expired, matches, presented, unverified, verified,
  verify_destructive_elicitation_state,
}

-- A state for this very call that is no older than ten minutes.
pub record IsStateOf (now : ℕ) (tool effect digest : String) (s : DestructiveElicitationState)
    : Type 0 where
  pub fresh : now ≤ s.issued_at + max_age_ms
  pub same_tool : s.tool_name ≡ tool
  pub same_effect : s.effect ≡ effect
  pub same_args : s.args_digest ≡ digest

matches_iff :
    (s : DestructiveElicitationState) (tool effect digest : String)
    → (matches s tool effect digest ≡ true)
      ↔ ((s.tool_name ≡ tool) × (s.effect ≡ effect) × (s.args_digest ≡ digest))
matches_iff s tool effect digest = (
  λ e. ground (
    arith,
    str_eq_iff s.tool_name tool,
    str_eq_iff s.effect effect,
    str_eq_iff s.args_digest digest,
  ),
  λ e. ground (
    arith,
    str_eq_iff s.tool_name tool,
    str_eq_iff s.effect effect,
    str_eq_iff s.args_digest digest,
  ),
)

is_expired_iff : (now t : ℕ) → (is_expired now t ≡ false) ↔ (now ≤ t + max_age_ms)
is_expired_iff now t = (λ e. ground arith, λ e. ground arith)

decided :
    (expired ok : Bool) (early late : String) (t s : DestructiveElicitationState)
    → (if expired then unverified early else if ok then verified t else unverified late)
      ≡ verified s
    → (expired ≡ false) × (ok ≡ true) × (t ≡ s)
decided true ok early late t s e = cc
decided false true early late t s e = (refl, refl, cc)
decided false false early late t s e = cc

pub check_state_sound :
    (now : ℕ) (tool effect digest : String) (o : Option DestructiveElicitationState)
    (s : DestructiveElicitationState)
    → check_state now tool effect digest o ≡ verified s
    → (o ≡ some s) × IsStateOf now tool effect digest s
check_state_sound now tool effect digest none s e = cc
check_state_sound now tool effect digest (some t) s e =
    let (fresh, ok, same) =
      decided (is_expired now t.issued_at) (matches t tool effect digest) _ _ t s e in
    let (tool_eq, effect_eq, args_eq) = (matches_iff t tool effect digest).0 ok in
    subst (λ s. (some t ≡ some s) × IsStateOf now tool effect digest s) same
      (
        refl,
        record {
          fresh = (is_expired_iff now t.issued_at).0 fresh;
          same_tool = tool_eq;
          same_effect = effect_eq;
          same_args = args_eq;
        },
      )

pub check_state_complete :
    (now : ℕ) (tool effect digest : String) (s : DestructiveElicitationState)
    → IsStateOf now tool effect digest s
    → check_state now tool effect digest (some s) ≡ verified s
check_state_complete now tool effect digest s h = rw (
  (is_expired_iff now s.issued_at).1 h.fresh,
  (matches_iff s tool effect digest).1 (h.same_tool, h.same_effect, h.same_args),
)

-- A missing state is no state either way.
pub verify-check :
    (codec : RequestStateCodec) (v : Json) (now : ℕ) (tool effect digest : String)
    (s : DestructiveElicitationState)
    → (verify_destructive_elicitation_state codec v now tool effect digest ≡ verified s)
      ↔ (check_state now tool effect digest (presented codec v) ≡ verified s)
unfolding verify_destructive_elicitation_state parse_destructive_elicitation_state
verify-check codec undefined now tool effect digest s = (λ e. cc, λ e. cc)
verify-check codec _ now tool effect digest s = (λ e. e, λ e. e)

-- A state is verified exactly if one was presented and is of this call.
pub verified_iff :
    (codec : RequestStateCodec) (v : Json) (now : ℕ) (tool effect digest : String)
    (s : DestructiveElicitationState)
    → (verify_destructive_elicitation_state codec v now tool effect digest ≡ verified s)
      ↔ ((presented codec v ≡ some s) × IsStateOf now tool effect digest s)
verified_iff codec v now tool effect digest s =
    let (to, from) = verify-check codec v now tool effect digest s in
    (
      λ e. check_state_sound now tool effect digest (presented codec v) s (to e),
      λ h. from (rw (h.0) (check_state_complete now tool effect digest s h.1)),
    )
