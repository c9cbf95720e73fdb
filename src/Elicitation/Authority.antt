-- ===== src/Elicitation/Authority.antt =====
-- Which calls of a destructive tool go ahead, with the wrapper of
-- src/utils/destructive-elicitation.ts and the gate of src/utils/destructive-gate.ts behind it.
use b2_mcp.Base.{
  Bool, Bool-cases, Option, String, arith, false, inl, inr, none, refl, some, subst, sym, true,
  true_of_and, ◌&&◌, ◌↔◌, ◌∙◌, ◌≡◌, ◌⊎◌,
}
use b2_mcp.Json.{bool, get}
use b2_mcp.DestructiveGate.Check.{
  DestructivePolicy, allow, block, confirm, elicit, get_destructive_policy,
}
use b2_mcp.Elicitation.Client.{destructive_elicitation_enabled}
use b2_mcp.Elicitation.Decide.{
  Call, FallbackReason, Services, answer_of, by_policy, can_elicit, client_cannot_elicit,
  destructive_elicitation_refused, disabled_reason, elicitation_disabled, gated, goes_ahead,
  maybe_require_destructive_elicitation, out_of_reach, require_elicitation, resume, runs_original,
  unable_reason, with_effect,
}
use b2_mcp.DestructiveGate.Detectors.{destructive_effect}
use b2_mcp.DestructiveGate.Decision.{Permits, check_destructive_iff}
use b2_mcp.Elicitation.Approval.{IsApproved, IsElicited, is_allowed_iff, resume_iff}

some_same : (a b : String) → some a ≡ some b → a ≡ b
some_same a b e = cc

false_right : (a b : Bool) → a ≡ true → (a && b) ≡ false → b ≡ false
false_right a b h e = ground arith

module _ (sv : Services) where
  -- A human can be asked: the server allows it and the client can show a form.
  abbrev pub can_ask : Call → Bool
  can_ask k = destructive_elicitation_enabled k.flag && can_elicit sv k

  pub reaches :
      (k : Call) (effect : String) (p : DestructivePolicy)
      → can_ask k ≡ true
      → require_elicitation sv p k effect ≡ resume sv k effect (answer_of sv k)
  reaches k effect p h =
      let (enabled, able) =
        true_of_and (destructive_elicitation_enabled k.flag) (can_elicit sv k) h in
      rw (enabled, able)

  misses :
      (k : Call) (effect : String) (p : DestructivePolicy)
      → can_ask k ≡ false
      → (f : FallbackReason) × (why : String) × (require_elicitation sv p k effect
          ≡ out_of_reach p k f why)
  misses k effect p h = elim (Bool-cases (destructive_elicitation_enabled k.flag)) [
    | inl enabled ↦
        let unable =
          false_right (destructive_elicitation_enabled k.flag) (can_elicit sv k) enabled h in
        (client_cannot_elicit, unable_reason, rw (enabled, unable) refl)
    | inr disabled ↦ (elicitation_disabled, disabled_reason, rw disabled refl)
  ]

  -- What lets a call go ahead under each policy.
  abbrev pub Authorises : DestructivePolicy → Call → String → Type 0
  Authorises allow k effect = Unit
  Authorises block k effect = ⊥
  Authorises elicit k effect = (can_ask k ≡ true) × IsApproved sv k effect
  Authorises confirm k effect =
      ((can_ask k ≡ true) × IsApproved sv k effect)
      ⊎ ((can_ask k ≡ false) × (get "confirm" k.args ≡ bool true))

  gate_iff :
      (k : Call) (effect : String) (p : DestructivePolicy)
      → get_destructive_policy k.config ≡ p
      → destructive_effect k.tool_name k.args ≡ some effect
      → (gated sv k runs_original ≡ true) ↔ Permits sv.digest none p k.tool_name k.args k.config
  gate_iff k effect p same found =
      let (to, from) = check_destructive_iff sv.digest none k.tool_name k.args k.config in
      (
        λ e. elim (to ((is_allowed_iff _).0 e)) [
          | inl harmless ↦ cc
          | inr h ↦ subst (λ q. Permits sv.digest none q k.tool_name k.args k.config) same h
        ],
        λ h. (is_allowed_iff _).1 (
            from (
              inr
                (subst (λ q. Permits sv.digest none q k.tool_name k.args k.config) (sym same) h))),
      )

  by_policy_iff :
      (k : Call) (effect : String) (p : DestructivePolicy)
      → get_destructive_policy k.config ≡ p
      → destructive_effect k.tool_name k.args ≡ some effect
      → (gated sv k (by_policy sv p k effect).0 ≡ true) ↔ Authorises p k effect
  unfolding destructive_elicitation_refused
  by_policy_iff k effect allow same found = gate_iff k effect allow same found
  by_policy_iff k effect block same found = gate_iff k effect block same found
  by_policy_iff k effect elicit same found = elim (Bool-cases (can_ask k)) [
    | inl able ↦ rw (reaches k effect elicit able) (
        let (to, from) =
          resume_iff sv k effect (answer_of sv k) found (subst IsElicited (sym same) tt) in
        (λ e. (able, to e), λ h. from (h.1)))
    | inr unable ↦ let (f, why, e) = misses k effect elicit unable in rw e (λ g. cc, λ h. cc (h.0))
  ]
  by_policy_iff k effect confirm same found = elim (Bool-cases (can_ask k)) [
    | inl able ↦ rw (reaches k effect confirm able) (
        let (to, from) =
          resume_iff sv k effect (answer_of sv k) found (subst IsElicited (sym same) tt) in
        (λ e. inl (able, to e), λ h. elim h [ inl a ↦ from (a.1) | inr b ↦ cc (b.0) ]))
    | inr unable ↦
        let (f, why, e) = misses k effect confirm unable in
        let (to, from) = gate_iff k effect confirm same found in
        rw e (
          λ g. elim (to g) [ inl c ↦ cc | inr y ↦ inr (unable, y) ],
          λ h. elim h [ inl a ↦ cc (a.0) | inr b ↦ from (inr (b.1)) ],
        )
  ]

  -- A call of a destructive tool goes ahead, through the wrapper and the gate, exactly when its
  -- arguments have no irreversible effect or the policy authorises it. `allow` always does and
  -- `block` never. `elicit` does if a human could be asked and approved: with an accepted and
  -- confirmed answer came a state that the codec accepts, of this tool, effect and arguments and at
  -- most ten minutes old. `confirm` does in that case and, only if no human can be asked, with
  -- `confirm: true` from the model.
  pub goes_ahead_iff :
      (k : Call)
      → (goes_ahead sv k ≡ true) ↔ (
          (destructive_effect k.tool_name k.args ≡ none)
          ⊎ ((effect : String) × (destructive_effect k.tool_name k.args ≡ some effect)
              × Authorises (get_destructive_policy k.config) k effect))
  unfolding goes_ahead maybe_require_destructive_elicitation
  goes_ahead_iff k = by_effect (destructive_effect k.tool_name k.args) refl
    where
      by_effect :
          (o : Option String)
          → destructive_effect k.tool_name k.args ≡ o
          → (gated sv k (with_effect sv o k).0 ≡ true) ↔ (
              (destructive_effect k.tool_name k.args ≡ none)
              ⊎ ((effect : String) × (destructive_effect k.tool_name k.args ≡ some effect)
                  × Authorises (get_destructive_policy k.config) k effect))
      by_effect none found = (
        λ e. inl found,
        λ h.
            (is_allowed_iff _).1
              ((check_destructive_iff sv.digest none k.tool_name k.args k.config).1 (inl found)),
      )
      by_effect (some effect) found =
          let (to, from) = by_policy_iff k effect (get_destructive_policy k.config) refl found in
          (
            λ e. inr (effect, found, to e),
            λ h. elim h [
              | inl harmless ↦ cc
              | inr mine ↦
                  let (x, stated, authority) = mine in
                  from (
                    subst (Authorises (get_destructive_policy k.config) k)
                      (some_same x effect (sym stated ∙ found)) authority)
            ],
          )
