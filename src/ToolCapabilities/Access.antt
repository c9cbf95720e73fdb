-- ===== src/ToolCapabilities/Access.antt =====
-- The access rules of src/utils/tool-capabilities.ts.
use b2_mcp.Base.{
  Bool, Bool-cases, List, Option, String, [], any, arith, false, get_or, if◌then◌else◌, includes,
  inl, inr, lookup, none, refl, set, some, true, ◌∷◌, ◌≡◌,
}
use b2_mcp.ToolCapabilities.Tables.{
  ScopeTier, admin, oauth_tool_scope_policies, read, tool_capabilities, write,
}

-- `candidates.some((c) => set.has(c))`
abbrev pub has_any : List String → List String → Bool
has_any set candidates = any (λ c. includes c set) candidates

abbrev pub oauth_operation_scopes : ScopeTier → List String
oauth_operation_scopes read = "b2:read" ∷ "b2:write" ∷ "b2:admin" ∷ []
oauth_operation_scopes write = "b2:write" ∷ "b2:admin" ∷ []
oauth_operation_scopes admin = "b2:admin" ∷ []

unfoldable pub oauth_scopes_allow_operation : Option (List String) → ScopeTier → Bool
oauth_scopes_allow_operation none operation = true
oauth_scopes_allow_operation (some scopes) operation =
    has_any scopes (oauth_operation_scopes operation)

unfoldable pub oauth_tool_scope_policy : String → Option ScopeTier
oauth_tool_scope_policy name = lookup name oauth_tool_scope_policies

abbrev pub enabled_for : Option (List String) → List String → Bool
enabled_for none caps = true
enabled_for (some []) caps = true
enabled_for (some (c ∷ cs)) caps = has_any caps (c ∷ cs)

unfoldable pub is_tool_enabled : String → Option (List String) → Bool
is_tool_enabled name none = true
is_tool_enabled name (some caps) = enabled_for (lookup name tool_capabilities) caps

abbrev pub tier_allowed : ScopeTier → Option (List String) → Bool
tier_allowed read scopes = oauth_scopes_allow_operation scopes read
tier_allowed write scopes = oauth_scopes_allow_operation scopes write
tier_allowed admin scopes = false

unfoldable pub is_tool_allowed_by_oauth_scopes : String → Option (List String) → Bool
unfolding oauth_scopes_allow_operation oauth_tool_scope_policy
is_tool_allowed_by_oauth_scopes name none = true
is_tool_allowed_by_oauth_scopes name (some scopes) =
    if oauth_scopes_allow_operation (some scopes) admin
    then true
    else tier_allowed (get_or (oauth_tool_scope_policy name) admin) (some scopes)

-- Every element of one set is one of another; a null set holds everything.
abbrev pub IsSubset : List String → List String → Type 0
IsSubset s t = (x : String) → includes x s ≡ true → includes x t ≡ true

pub has_any_mono :
    (s t : List String) (cs : List String)
    → IsSubset s t
    → has_any s cs ≡ true
    → has_any t cs ≡ true
has_any_mono s t [] sub e = e
has_any_mono s t (c ∷ cs) sub e = elim (Bool-cases (includes c s)) [
  | inl held ↦ rw (sub c held)
  | inr not_held ↦ ground (arith, has_any_mono s t cs sub (ground arith))
]

pub is_tool_enabled_mono :
    (name : String) (s t : List String)
    → IsSubset s t
    → is_tool_enabled name (some s) ≡ true
    → is_tool_enabled name (some t) ≡ true
unfolding is_tool_enabled
is_tool_enabled_mono name s t sub = by_entry (lookup name tool_capabilities)
  where
    by_entry : (o : Option (List String)) → enabled_for o s ≡ true → enabled_for o t ≡ true
    by_entry none e = refl
    by_entry (some []) e = refl
    by_entry (some (c ∷ cs)) e = has_any_mono s t (c ∷ cs) sub e

-- The rule of the code, which lets `b2:admin` through first and then asks for the tool's tier, is
-- that the scopes allow the tier of the tool's policy, `admin` where a tool has none.
pub is_tool_allowed-tier :
    (name : String) (scopes : Option (List String))
    → is_tool_allowed_by_oauth_scopes name scopes
      ≡ oauth_scopes_allow_operation scopes (get_or (oauth_tool_scope_policy name) admin)
unfolding is_tool_allowed_by_oauth_scopes
is_tool_allowed-tier name none = refl
is_tool_allowed-tier name (some scopes) = by_tier (get_or (oauth_tool_scope_policy name) admin)
  where
    by_tier :
        (t : ScopeTier)
        → (if oauth_scopes_allow_operation (some scopes) admin
            then true
            else tier_allowed t (some scopes))
          ≡ oauth_scopes_allow_operation (some scopes) t
    by_tier read = ground arith
    by_tier write = ground arith
    by_tier admin = ground arith
