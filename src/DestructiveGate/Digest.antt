-- ===== src/DestructiveGate/Digest.antt =====
-- The digest of the arguments that an approval is bound to, in src/utils/destructive-gate.ts.
use Prim.Native.String
use Prim.Native.String.{compare}
use Prim.Native.Nat.{Ordering}
use b2_mcp.Base.{
  Bool, List, Option, String, [], false, if◌then◌else◌, map, none, some, str_eq, true, ◌∷◌,
}
use b2_mcp.Json.{
  Fields, Items, Json, arr, cons, delete_field, end, field, is_undefined, nil, obj, str, undefined,
}

-- The parts of the configuration that the gate reads.
pub record B2Config : Type 0 where
  pub application_key : Option String
  pub app_key : Option String
  pub master_key : Option String
  pub credential_fingerprint : Option String
  pub destructive_policy : Option String

abbrev pub present : Option String → List String → List String
present none rest = rest
present (some s) rest = if str_eq s "" then rest else s ∷ rest

-- `parts.join(separator)`
abbrev pub join : String → List String → String
join sep [] = ""
join sep (a ∷ []) = a
join sep (a ∷ b ∷ rest) = String.◌++◌ a (String.◌++◌ sep (join sep (b ∷ rest)))

unfoldable pub destructive_gate_key : String → B2Config → String
destructive_gate_key nul c = join nul (
    present c.application_key
      (present c.app_key (present c.master_key (present c.credential_fingerprint []))))

pub security_relevant_args : Fields → Fields
security_relevant_args args = delete_field "confirm" args

-- `Array.prototype.sort` of texts, and what each carries along. Texts are compared by code points,
-- the code compares UTF-16 code units: the two orders differ only beyond U+FFFF.
abbrev before : String → String → Bool
before s t = elim (compare s t) [ Ordering.gt ↦ false | _ ↦ true ]

abbrev pub insert_sorted : String × String → List (String × String) → List (String × String)
insert_sorted e [] = e ∷ []
insert_sorted (k, v) ((j, w) ∷ es) =
    let rest = insert_sorted (k, v) es in if before k j then (k, v) ∷ (j, w) ∷ es else (j, w) ∷ rest

abbrev pub sort_entries : List (String × String) → List (String × String)
sort_entries [] = []
sort_entries (e ∷ es) = insert_sorted e (sort_entries es)

abbrev around : String → String → String → String
around left inner right = String.◌++◌ left (String.◌++◌ inner right)

-- `stringify` is `JSON.stringify` at null, Booleans, numbers and texts.
module _ (stringify : Json → String) where
  abbrev pub entry_text : String × String → String
  entry_text (k, v) = String.◌++◌ (stringify (str k)) (String.◌++◌ ":" v)

  unfoldable mutual
    pub canonical_json : Json → String
    canonical_json undefined = "null"
    canonical_json (arr xs) = around "[" (join "," (canonical_items xs)) "]"
    canonical_json (obj fs) =
        around "{" (join "," (map entry_text (sort_entries (canonical_fields fs)))) "}"
    canonical_json v = stringify v

    pub canonical_items : Items → List String
    canonical_items nil = []
    canonical_items (cons v xs) = canonical_json v ∷ canonical_items xs

    -- The fields that are not undefined, with their texts.
    pub canonical_fields : Fields → List (String × String)
    canonical_fields end = []
    canonical_fields (field k v fs) =
        let rest = canonical_fields fs in
        if is_undefined v then rest else (k, canonical_json v) ∷ rest

  -- `hmac key text` is the HMAC-SHA256 of the crypto package in base64url, `nul` the text "\0".
  module _ (hmac : String → String → String) (nul : String) where
    unfoldable pub destructive_target_digest : B2Config → Fields → String
    unfolding canonical_json destructive_gate_key security_relevant_args
    destructive_target_digest c args = hmac (destructive_gate_key nul c) (
        String.◌++◌ "b2-mcp-destructive-target-args"
          (String.◌++◌ nul (canonical_json (obj (security_relevant_args args)))))
