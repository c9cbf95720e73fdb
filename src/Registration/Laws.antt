-- ===== src/Registration/Laws.antt =====
-- What a registered surface can do: it grows with the key and with the scopes, and no upload URL
-- is minted without the key's and the scopes' leave and the gate's approval.
use b2_mcp.Base.{
  Bool, Bool-cases, List, Option, String, arith, false, get_or, if◌then◌else◌, inl, inr, none, not,
  refl, some, str_eq, str_eq_iff, subst, sym, true, true_of_and, ℕ, ◌&&◌, ◌||◌, ◌∙◌, ◌≡◌, ◌≢◌, ◌⊎◌,
}
use b2_mcp.ToolCapabilities.Tables.{ScopeTier, admin, read, write}
use b2_mcp.ToolCapabilities.Access.{
  IsSubset, has_any_mono, is_tool_allowed-tier, is_tool_enabled, is_tool_enabled_mono,
  oauth_operation_scopes, oauth_scopes_allow_operation, oauth_tool_scope_policy,
}
use b2_mcp.Registration.Surface.{
  key_has, presigned_options, should_register_for_resolved_authz, survives_fail_closed,
}
use b2_mcp.DestructiveGate.Detectors.{destructive_effect}
use b2_mcp.DestructiveGate.Decision.{Permits, check_destructive_iff}
use b2_mcp.Json.{Fields}
use b2_mcp.DestructiveGate.Digest.{B2Config}
use b2_mcp.DestructiveGate.Check.{
  DestructiveConsent, GateResult, Refusal, allowed, blocked, check_destructive,
  get_destructive_policy,
}
use b2_mcp.Registration.Presigned.{
  Operation, PresignArgs, PresignResult, after_gate, bind_version, by_operation, gate_args, gated,
  get_object, get_presigned_url, put_object, refused, url,
}

-- A null set stands for everything.
abbrev pub IsWithin : Option (List String) → Option (List String) → Type 0
IsWithin s none = Unit
IsWithin none (some t) = ⊥
IsWithin (some s) (some t) = IsSubset s t

enabled-within :
    (name : String) (s t : Option (List String))
    → IsWithin s t
    → is_tool_enabled name s ≡ true
    → is_tool_enabled name t ≡ true
unfolding is_tool_enabled
enabled-within name s none w e = refl
enabled-within name none (some t) w e = absurd w
enabled-within name (some s) (some t) w e = is_tool_enabled_mono name s t w e

allow-within :
    (tier : ScopeTier) (s t : Option (List String))
    → IsWithin s t
    → oauth_scopes_allow_operation s tier ≡ true
    → oauth_scopes_allow_operation t tier ≡ true
unfolding oauth_scopes_allow_operation
allow-within tier s none w e = refl
allow-within tier none (some t) w e = absurd w
allow-within tier (some s) (some t) w e = has_any_mono s t (oauth_operation_scopes tier) w e

-- More capabilities of the key and more scopes of the token never take a tool away.
pub should_register_mono :
    (fail_closed : Bool) (name : String) (caps caps' scopes scopes' : Option (List String))
    → IsWithin caps caps'
    → IsWithin scopes scopes'
    → should_register_for_resolved_authz fail_closed caps scopes name ≡ true
    → should_register_for_resolved_authz fail_closed caps' scopes' name ≡ true
unfolding should_register_for_resolved_authz
should_register_mono fail_closed name caps caps' scopes scopes' w w' e =
    let (front, permitted) =
      true_of_and ((not fail_closed || survives_fail_closed name) && is_tool_enabled name caps) _
        e in
    let (opened, enabled) = true_of_and (not fail_closed || survives_fail_closed name) _ front in
    let tier = get_or (oauth_tool_scope_policy name) admin in
    rw (
      opened,
      enabled-within name caps caps' w enabled,
      is_tool_allowed-tier name scopes',
      allow-within tier scopes scopes' w' (sym (is_tool_allowed-tier name scopes) ∙ permitted),
    )

put_object-effect :
    (a : PresignArgs)
    → a.operation ≡ put_object
    → destructive_effect "s3_get_presigned_url" (gate_args a) ≢ none
unfolding destructive_effect
put_object-effect a e = rw e (λ k. cc)

module _ {Url Error : Type 0} (resolve : String → String → String → Option Error)
    (presign : PresignArgs → ℕ → Url ⊎ Error) (digest : B2Config → Fields → String)
    (consent : Option DestructiveConsent) (c : B2Config) (caps scopes : Option (List String)) where
  -- The tool as a server with this key, these scopes and this configuration runs it.
  abbrev pub presigned_tool : PresignArgs → PresignResult Url Error
  presigned_tool =
      get_presigned_url resolve presign
        (λ args. check_destructive digest consent "s3_get_presigned_url" args c)
        (presigned_options caps scopes)

  -- The version that a download names, if any, is one that the version guard accepts.
  abbrev pub IsBound : PresignArgs → Option String → Type 0
  IsBound a none = Unit
  IsBound a (some v) =
      (v ≡ "") ⊎ ((key_has caps "readFiles" ≡ true) × (resolve a.bucket a.key v ≡ none))

  abbrev pub IsLicensed : PresignArgs → Operation → Type 0
  IsLicensed a get_object =
      (key_has caps "readFiles" ≡ true)
      × (oauth_scopes_allow_operation scopes read ≡ true)
      × IsBound a a.version_id
  IsLicensed a put_object =
      (key_has caps "writeFiles" ≡ true)
      × (oauth_scopes_allow_operation scopes write ≡ true)
      × Permits digest consent (get_destructive_policy c) "s3_get_presigned_url" (gate_args a) c

  abbrev gate_of : Fields → GateResult
  gate_of args = check_destructive digest consent "s3_get_presigned_url" args c

  put_permitted :
      (a : PresignArgs)
      → a.operation ≡ put_object
      → gate_of (gate_args a) ≡ allowed
      → Permits digest consent (get_destructive_policy c) "s3_get_presigned_url" (gate_args a) c
  put_permitted a op e =
      elim ((check_destructive_iff digest consent "s3_get_presigned_url" (gate_args a) c).0 e) [
        | inl harmless ↦ absurd (put_object-effect a op harmless)
        | inr permitted ↦ permitted
      ]

  IsBound-version :
      (a : PresignArgs) (v : Option String) (u : Url)
      → bind_version resolve presign gate_of (presigned_options caps scopes) a get_object v ≡ url u
      → IsBound a v
  unfolding presigned_options
  IsBound-version a none u e = tt
  IsBound-version a (some v) u e = elim (Bool-cases (str_eq v "")) [
    | inl blank ↦ inl ((str_eq_iff v "").0 blank)
    | inr named ↦ inr (ground arith, ground arith)
  ]

  gated_url :
      (a : PresignArgs) (u : Url)
      → gated resolve presign gate_of (presigned_options caps scopes) a ≡ url u
      → (gate_of (gate_args a) ≡ allowed)
        × (bind_version resolve presign gate_of
              (presigned_options caps scopes)
              a
              a.operation
              a.version_id
            ≡ url u)
  gated_url a u = by_gate (gate_of (gate_args a))
    where
      by_gate :
          (g : GateResult)
          → after_gate resolve presign gate_of (presigned_options caps scopes) a g ≡ url u
          → (g ≡ allowed)
            × (bind_version resolve presign gate_of
                  (presigned_options caps scopes)
                  a
                  a.operation
                  a.version_id
                ≡ url u)
      by_gate allowed e = (refl, e)
      by_gate (blocked r) e = cc

  abbrev Binds : PresignArgs → Url → Operation → Type 0
  Binds a u op =
      bind_version resolve presign gate_of (presigned_options caps scopes) a op a.version_id ≡ url u

  flagged :
      (b : Bool) (r : Refusal) (x : PresignResult Url Error) (u : Url)
      → (if b then x else refused r) ≡ url u
      → (b ≡ true) × (x ≡ url u)
  flagged true r x u e = (refl, e)
  flagged false r x u e = cc

  licensed :
      (a : PresignArgs) (u : Url) (op : Operation)
      → a.operation ≡ op
      → by_operation resolve presign gate_of (presigned_options caps scopes) a op ≡ url u
      → IsLicensed a op
  unfolding presigned_options
  licensed a u get_object op e =
      let (flag, passed) = flagged _ _ _ u e in
      let (reads, scoped) = true_of_and _ _ flag in
      let (_, bound) = gated_url a u passed in
      (reads, scoped, IsBound-version a a.version_id u (subst (Binds a u) op bound))
  licensed a u put_object op e =
      let (flag, passed) = flagged _ _ _ u e in
      let (writes, scoped) = true_of_and _ _ flag in
      (writes, scoped, put_permitted a op (gated_url a u passed).0)

  -- A URL is returned only with leave: for an upload the key can write files, the token's scopes
  -- allow writing, and the destructive policy permits this very call; for a download the key can
  -- read files, the scopes allow reading, and a version that the call names has passed the guard.
  pub presigned_tool-IsLicensed :
      (a : PresignArgs) (u : Url) → presigned_tool a ≡ url u → IsLicensed a a.operation
  unfolding get_presigned_url
  presigned_tool-IsLicensed a u e = licensed a u a.operation refl e
