-- ===== src/DestructiveGate/Decision.antt =====
-- When the gate of src/utils/destructive-gate.ts lets a call through.
use b2_mcp.Base.{
  Bool-cases, Option, String, arith, inl, inr, none, refl, some, str_eq_iff, true, ◌↔◌, ◌≡◌, ◌⊎◌,
}
use b2_mcp.Json.{Fields, bool, get, is_true_iff}
use b2_mcp.DestructiveGate.Digest.{B2Config}
use b2_mcp.DestructiveGate.Check.{
  DestructiveConsent, DestructivePolicy, allow, allowed, block, check_destructive, check_effect,
  confirm, elicit, gate, get_destructive_policy, has_destructive_elicitation_consent,
}
use b2_mcp.DestructiveGate.Detectors.{destructive_effect}

module _ (digest : B2Config → Fields → String) (consent : Option DestructiveConsent) where
  -- The wrapper recorded an approval of this tool with these arguments.
  abbrev pub IsConsented : String → Fields → B2Config → Type 0
  IsConsented tool args c =
      consent ≡ some (record { tool_name = tool; args_digest = digest c args })

  -- What must hold of a call with an effect, under each policy.
  abbrev pub Permits : DestructivePolicy → String → Fields → B2Config → Type 0
  Permits allow tool args c = Unit
  Permits block tool args c = ⊥
  Permits elicit tool args c = IsConsented tool args c
  Permits confirm tool args c = IsConsented tool args c ⊎ (get "confirm" args ≡ bool true)

  consent_iff :
      (tool d : String) (o : Option DestructiveConsent)
      → (has_destructive_elicitation_consent o tool d ≡ true)
        ↔ (o ≡ some (record { tool_name = tool; args_digest = d }))
  unfolding has_destructive_elicitation_consent
  consent_iff tool d none = (λ e. cc, λ e. cc)
  consent_iff tool d (some k) = (
    λ e. ground (arith, str_eq_iff k.tool_name tool, str_eq_iff k.args_digest d),
    λ e. ground (arith, str_eq_iff k.tool_name tool, str_eq_iff k.args_digest d),
  )

  Permits-iff :
      (p : DestructivePolicy) (tool effect : String) (args : Fields) (c : B2Config)
      → (gate digest consent p
            (has_destructive_elicitation_consent consent tool (digest c args))
            (get "confirm" args)
            effect
          ≡ allowed)
        ↔ Permits p tool args c
  Permits-iff allow tool effect args c = (λ e. tt, λ e. refl)
  Permits-iff block tool effect args c = (λ e. cc, λ e. absurd e)
  Permits-iff elicit tool effect args c =
      let (to, from) = consent_iff tool (digest c args) consent in
      elim (Bool-cases (has_destructive_elicitation_consent consent tool (digest c args))) [
        | inl given ↦ rw given (λ e. to given, λ e. refl)
        | inr missing ↦ rw missing (λ e. cc, λ e. cc (from e))
      ]
  Permits-iff confirm tool effect args c =
      let (to, from) = consent_iff tool (digest c args) consent in
      let (yes_to, yes_from) = is_true_iff (get "confirm" args) in
      elim (Bool-cases (has_destructive_elicitation_consent consent tool (digest c args))) [
        | inl given ↦ rw given (λ e. inl (to given), λ e. refl)
        | inr missing ↦ rw missing (
          λ e. inr (yes_to (ground arith)),
          λ d. elim d [ inl k ↦ ground (arith, from k) | inr k ↦ rw (yes_from k) ],
        )
      ]

  -- A call goes through exactly when its arguments have no irreversible effect, or the policy
  -- permits it: `allow` always; `block` never; `elicit` if the wrapper recorded an approval of this
  -- tool with the digest of these arguments; `confirm` if it did or the arguments say
  -- `confirm: true`.
  pub check_destructive_iff :
      (tool : String) (args : Fields) (c : B2Config)
      → (check_destructive digest consent tool args c ≡ allowed)
        ↔ ((destructive_effect tool args ≡ none) ⊎ Permits (get_destructive_policy c) tool args c)
  unfolding check_destructive
  check_destructive_iff tool args c = by_effect (destructive_effect tool args)
    where
      by_effect :
          (o : Option String)
          → (check_effect digest consent tool args c o ≡ allowed)
            ↔ ((o ≡ none) ⊎ Permits (get_destructive_policy c) tool args c)
      by_effect none = (λ e. inl refl, λ e. refl)
      by_effect (some effect) =
          let (to, from) = Permits-iff (get_destructive_policy c) tool effect args c in
          (λ e. inr (to e), λ d. elim d [ inl e ↦ cc | inr p ↦ from p ])
