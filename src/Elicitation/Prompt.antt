-- ===== src/Elicitation/Prompt.antt =====
-- The values that the prompt of src/utils/destructive-elicitation.ts shows. Texts are lists of UTF-16
-- code units; `sanitize` is `sanitizeText` with the call's options.
use Prim.Native.Char.{code}
use b2_mcp.Base.{
  Bool, List, Option, String, [], codes, false, if◌then◌else◌, is_some, length, ltb, map, none,
  some, suc, take, true, ℕ, ◌%◌, ◌++◌, ◌+◌, ◌-◌, ◌/◌, ◌==◌, ◌||◌, ◌∷◌,
}
use b2_mcp.Json.{
  Fields, Items, Json, arr, bool, cons, get, is_nullish, nil, num, obj, str, undefined,
}
use b2_mcp.Csv.{Units, is_nil, is_white_space, trim}
use b2_mcp.HttpConfig.{strip}
use b2_mcp.Toon.Columns.{decimal}

abbrev pub redaction : Units
redaction = codes "[redacted]"

abbrev pub prompt_target_detail_limit : ℕ
prompt_target_detail_limit = 5

-- A code point in UTF-16.
abbrev pub utf16_units : ℕ → Units
utf16_units c =
    if ltb c 65536 then c ∷ [] else (55296 + (c - 65536) / 1024) ∷ (56320 + c % 1024) ∷ []

abbrev pub utf16 : String → Units
utf16 String.[] = []
utf16 (String.◌∷◌ c s) = utf16_units (code c) ++ utf16 s

-- `text.includes(pattern)`
abbrev pub includes_units : Units → Units → Bool
includes_units p [] = is_nil p
includes_units p (c ∷ s) = is_some (strip p (c ∷ s)) || includes_units p s

-- `text.replace(/\s+/g, " ")`, from the right: a run that follows has become one space already.
abbrev pub drop_space : Units → Units
drop_space [] = []
drop_space (c ∷ s) = if c == 32 then s else c ∷ s

abbrev pub squeeze : Units → Units
squeeze [] = []
squeeze (c ∷ s) =
    let rest = squeeze s in if is_white_space c then 32 ∷ drop_space rest else c ∷ rest

-- `String(value)` of what is shown.
abbrev pub text_of_value : Json → Option Units
text_of_value (str s) = some (utf16 s)
text_of_value (num n) = some (decimal n)
text_of_value (bool true) = some (codes "true")
text_of_value (bool false) = some (codes "false")
text_of_value _ = none

abbrev pub shortened : Units → Option Units
shortened text =
    if is_nil text
    then none
    else if includes_units redaction text
    then some redaction
    else if ltb 120 (length text)
    then some (take 117 text ++ codes "...")
    else some text

-- `fields[key]`, the first that is not null.
abbrev pub record_value : Fields → List String → Json
record_value fs [] = undefined
record_value fs (k ∷ ks) =
    let rest = record_value fs ks in if is_nullish (get k fs) then rest else get k fs

abbrev pub object_record : Json → Option Fields
object_record (obj fs) = some fs
object_record _ = none

abbrev pub record_object : Fields → List String → Option Fields
record_object fs ks = object_record (record_value fs ks)

abbrev pub value_in : Option Fields → List String → Json
value_in none ks = undefined
value_in (some fs) ks = record_value fs ks

abbrev pub count_items : Items → ℕ
count_items nil = 0
count_items (cons v xs) = suc (count_items xs)

abbrev pub list_items : Items → List Json
list_items nil = []
list_items (cons v xs) = v ∷ list_items xs

abbrev pub some_values : List (Option Units) → List Units
some_values [] = []
some_values (none ∷ os) = some_values os
some_values (some u ∷ os) = u ∷ some_values os

abbrev pub joined : Units → List Units → Units
joined sep [] = []
joined sep (a ∷ []) = a
joined sep (a ∷ b ∷ rest) = a ++ sep ++ joined sep (b ∷ rest)

abbrev pub sentence : Units → Units → Units
sentence label text = label ++ codes ": " ++ text ++ codes "."

module _ (sanitize : Units → Units) where
  abbrev pub sanitized : Option Units → Option Units
  sanitized none = none
  sanitized (some text) = shortened (trim (squeeze (sanitize text)))

  unfoldable pub safe_prompt_value : Json → Option Units
  safe_prompt_value v = sanitized (text_of_value v)

  abbrev pub detail : Units → Option Units → List Units
  detail label none = []
  detail label (some text) = sentence label text ∷ []

  unfoldable pub prompt_detail : Units → Json → List Units
  prompt_detail label v = detail label (safe_prompt_value v)

  abbrev pub more : ℕ → Units
  more omitted = if ltb 0 omitted then codes ", +" ++ decimal omitted ++ codes " more" else []

  abbrev pub list_detail : Units → ℕ → List Units → List Units
  list_detail label total [] = []
  list_detail label total (u ∷ us) =
      sentence label (joined (codes ", ") (u ∷ us) ++ more (total - length (u ∷ us))) ∷ []

  unfoldable pub prompt_list_detail : Units → Json → List Units
  prompt_list_detail label (arr xs) =
      list_detail label (count_items xs)
        (some_values (map safe_prompt_value (take prompt_target_detail_limit (list_items xs))))
  prompt_list_detail label _ = []

-- How many targets of a list are not described.
unfoldable pub prompt_truncation_detail : Units → ℕ → List Units
prompt_truncation_detail label count =
    if ltb prompt_target_detail_limit count
    then sentence (codes "Additional " ++ label) (decimal (count - prompt_target_detail_limit)) ∷ []
    else []
