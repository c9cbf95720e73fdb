-- ===== src/ToolCapabilities/Annotations.antt =====
-- annotationsForTool of src/utils/tool-capabilities.ts.
use text.Mathlib.Text.{starts_with}
use b2_mcp.Base.{
  Bool, Bool-cases, List, Option, String, [], all, arith, each_of_all, false, includes, inl, inr,
  is_some, lookup, none, not, refl, some, str_eq, sym, true, ◌&&◌, ◌||◌, ◌∙◌, ◌∷◌, ◌≡◌, ◌⊎◌,
}
use b2_mcp.Json.{Fields}
use b2_mcp.DestructiveGate.Detectors.{
  Detector, destructive_effect, destructive_tool_names, detectors, is_destructive_tool, names,
}
use b2_mcp.DestructiveGate.Digest.{B2Config}
use b2_mcp.DestructiveGate.Check.{DestructiveConsent, allowed, check_destructive}
use b2_mcp.ToolCapabilities.Tables.{
  idempotent_non_readonly_tool_names, non_idempotent_destructive_tool_names,
  non_read_only_tool_names, read_only_operation_tool_names, tool_capabilities,
}

pub record McpToolAnnotations : Type 0 where
  pub read_only_hint : Bool
  pub destructive_hint : Bool
  pub idempotent_hint : Bool
  pub open_world_hint : Bool

abbrev pub is_read_list_capability : String → Bool
is_read_list_capability c = starts_with c "read" || starts_with c "list"

abbrev pub all_read_list : Option (List String) → Bool
all_read_list none = false
all_read_list (some []) = false
all_read_list (some (c ∷ cs)) = all is_read_list_capability (c ∷ cs)

unfoldable pub has_read_only_tool_capabilities : String → Bool
has_read_only_tool_capabilities name = all_read_list (lookup name tool_capabilities)

abbrev pub has_idempotent_destructive_gate : String → Bool
has_idempotent_destructive_gate name =
    includes name destructive_tool_names
    && not (includes name non_idempotent_destructive_tool_names)

unfoldable pub annotations_for_tool : String → McpToolAnnotations
unfolding has_read_only_tool_capabilities destructive_tool_names
annotations_for_tool name =
    let destructive = includes name destructive_tool_names in
    let read_only =
      not destructive
      && not (includes name non_read_only_tool_names)
      && (has_read_only_tool_capabilities name || includes name read_only_operation_tool_names) in
    record {
      read_only_hint = read_only;
      destructive_hint = destructive;
      idempotent_hint =
          read_only
          || has_idempotent_destructive_gate name
          || includes name idempotent_non_readonly_tool_names;
      open_world_hint = true;
    }

includes-names {ℓ} :
    {A : Type ℓ} (k : String) (m : List (String × A)) → includes k (names m) ≡ is_some (lookup k m)
includes-names k [] = refl
includes-names k ((j, a) ∷ m) = elim (Bool-cases (str_eq j k)) [
  | inl same ↦ rw same
  | inr other ↦ rw other (includes-names k m)
]

pub destructive_hint-gate :
    (name : String) → (annotations_for_tool name).destructive_hint ≡ is_destructive_tool name
unfolding annotations_for_tool is_destructive_tool
destructive_hint-gate name = includes-names name detectors

hint_facts :
    (d w p q g i : Bool)
    → (not d && not w && (p || q)) ≡ true
    → (d ≡ false)
      × (w ≡ false)
      × (((not d && not w && (p || q)) || g || i) ≡ true)
      × ((p ≡ true) ⊎ (q ≡ true))
hint_facts d w p q g i e = ground arith

either_prefix :
    (c : String)
    → is_read_list_capability c ≡ true
    → (starts_with c "read" ≡ true) ⊎ (starts_with c "list" ≡ true)
either_prefix c h = ground arith

-- The tool is listed with capabilities, and each of them is to read or to list.
abbrev pub IsReadListed : String → Type 0
IsReadListed name =
    (first : String) × (rest : List String) × (lookup name tool_capabilities ≡ some (first ∷ rest))
    × ((c : String)
        → includes c (first ∷ rest) ≡ true
        → (starts_with c "read" ≡ true) ⊎ (starts_with c "list" ≡ true))

listed :
    (name : String) (o : Option (List String))
    → lookup name tool_capabilities ≡ o
    → all_read_list o ≡ true
    → IsReadListed name
listed name none same h = cc
listed name (some []) same h = cc
listed name (some (first ∷ rest)) same h = (
  first,
  rest,
  same,
  λ c member. either_prefix c (each_of_all is_read_list_capability (first ∷ rest) h c member),
)

-- The gate lets every call of a tool through that it has no detector for.
undetected-allowed :
    (digest : B2Config → Fields → String) (consent : Option DestructiveConsent) (name : String)
    (args : Fields) (c : B2Config) (o : Option Detector)
    → lookup name detectors ≡ o
    → is_some o ≡ false
    → check_destructive digest consent name args c ≡ allowed
unfolding check_destructive destructive_effect
undetected-allowed digest consent name args c none same h = rw same
undetected-allowed digest consent name args c (some detect) same h = cc

-- The gate lets every call of a tool with the read-only hint through, without any approval. Such a
-- tool has the idempotent hint and not the destructive one; it is not one of those that can write
-- although their capabilities are to read; and all the key capabilities that it is listed with are
-- to read or to list, and there are some, if it is not one of the reviewed exceptions.
pub read_only_hint_sound :
    (name : String)
    → (annotations_for_tool name).read_only_hint ≡ true
    → ((digest : B2Config → Fields → String) (consent : Option DestructiveConsent) (args : Fields)
          (c : B2Config)
        → check_destructive digest consent name args c ≡ allowed)
      × ((annotations_for_tool name).destructive_hint ≡ false)
      × ((annotations_for_tool name).idempotent_hint ≡ true)
      × (includes name non_read_only_tool_names ≡ false)
      × (IsReadListed name ⊎ (includes name read_only_operation_tool_names ≡ true))
unfolding annotations_for_tool has_read_only_tool_capabilities is_destructive_tool
read_only_hint_sound name e =
    let (plain, writes, again, reads) =
      hint_facts (includes name destructive_tool_names) (includes name non_read_only_tool_names)
        (has_read_only_tool_capabilities name) (includes name read_only_operation_tool_names)
        (has_idempotent_destructive_gate name) (includes name idempotent_non_readonly_tool_names)
        e in
    (
      (λ digest consent args c.
          undetected-allowed digest consent name args c (lookup name detectors) refl
            (sym (destructive_hint-gate name) ∙ plain)),
      plain,
      again,
      writes,
      elim reads [
        | inl capable ↦ inl (listed name (lookup name tool_capabilities) refl capable)
        | inr reviewed ↦ inr reviewed
      ],
    )
