-- ===== src/Toon/Frames.antt =====
-- encodeToon of src/utils/toon-encoder.ts joins its lines so that they are told apart again.
use b2_mcp.Base.{
  All, List, Option-cases, [], ap, arith, if◌then◌else◌, inl, inr, none, refl, subst, ℕ, ◌++◌, ◌+◌,
  ◌==◌, ◌∙◌, ◌∷◌, ◌≡◌,
}
use b2_mcp.Toon.Values.{Text, Value, arr, bool, null, num, obj, str, undefined}
use b2_mcp.Toon.Surrogates.{Result, ok, ◌>>=◌}
use b2_mcp.Toon.Columns.{extract_keyed_tabular_fields}
use b2_mcp.Toon.Lines.{encode_keyed_object_lines}
use b2_mcp.Toon.Encoder.{encode_json_value, encode_toon, join_lines}
use b2_mcp.Toon.Reader.{onto_first}
use b2_mcp.Toon.Breaks.{HasNumbers, NoBreak, Returns, bind-Returns, primitive-NoBreak}
use b2_mcp.Toon.Framed.{AreLines, line-NoBreak}
use b2_mcp.Toon.Document.{array-AreLines, entries-AreLines, items-AreLines, object-AreLines}

-- `text.split("\n")`
unfoldable pub split_lines : Text → List Text
split_lines [] = [] ∷ []
split_lines (c ∷ s) = let rest = split_lines s in if c == 10 then [] ∷ rest else onto_first c rest

split_line : (t rest : Text) → NoBreak t → split_lines (t ++ 10 ∷ rest) ≡ t ∷ split_lines rest
unfolding split_lines
split_line [] rest h = refl
split_line (c ∷ t) rest h = ground (arith, split_line t rest)

split_last : (t : Text) → NoBreak t → split_lines t ≡ t ∷ []
unfolding split_lines
split_last [] h = refl
split_last (c ∷ t) h = ground (arith, split_last t)

split_joined_lines :
    (l : Text) (ls : List Text) → All NoBreak (l ∷ ls) → split_lines (join_lines (l ∷ ls)) ≡ l ∷ ls
split_joined_lines l [] (h, hs) = split_last l h
split_joined_lines l (m ∷ ls) (h, hs) =
    split_line l (join_lines (m ∷ ls)) h ∙ ap (λ x. l ∷ x) (split_joined_lines m ls hs)

text-AreLines :
    (text : Text) → NoBreak text → All NoBreak (elim text [ [] ↦ [] | c ∷ s ↦ (c ∷ s) ∷ [] ])
text-AreLines [] h = tt
text-AreLines (c ∷ s) h = (h, tt)

scalar_value-AreLines :
    (r : Result Text)
    → Returns NoBreak r
    → AreLines (r >>= λ text. ok (elim text [ [] ↦ [] | c ∷ s ↦ (c ∷ s) ∷ [] ]))
scalar_value-AreLines r h = bind-Returns NoBreak (All NoBreak) r _ h text-AreLines

value-AreLines : (v : Value) (depth : ℕ) → HasNumbers v → AreLines (encode_json_value v depth)
unfolding encode_json_value encode_keyed_object_lines
value-AreLines undefined depth h = scalar_value-AreLines _ (primitive-NoBreak undefined h)
value-AreLines null depth h = scalar_value-AreLines _ (primitive-NoBreak null h)
value-AreLines (bool b) depth h = scalar_value-AreLines _ (primitive-NoBreak (bool b) h)
value-AreLines (num s) depth h = scalar_value-AreLines _ (primitive-NoBreak (num s) h)
value-AreLines (str s) depth h = scalar_value-AreLines _ (primitive-NoBreak (str s) h)
value-AreLines (arr xs) depth h = array-AreLines none xs depth _ h (items-AreLines xs (depth + 1) h)
value-AreLines (obj es) depth h = elim (Option-cases (extract_keyed_tabular_fields es)) [
  | inl no_table ↦ rw (no_table, encode_json_value) (entries-AreLines es depth h)
  | inr (fields, table) ↦
      rw (table, encode_json_value)
        (object-AreLines _ none es fields (depth + 1) (line-NoBreak depth) h)
]

-- The document of a value that yields lines is split back into just these lines: whatever its keys
-- and texts hold, none of them breaks a line.
pub encode_toon-split_lines :
    (v : Value) (l : Text) (ls : List Text)
    → HasNumbers v
    → encode_json_value v 0 ≡ ok (l ∷ ls)
    → (text : Text) × ((encode_toon v ≡ ok text) × (split_lines text ≡ l ∷ ls))
unfolding encode_toon
encode_toon-split_lines v l ls h e = (
  join_lines (l ∷ ls),
  (rw e refl, split_joined_lines l ls (subst AreLines e (value-AreLines v 0 h))),
)
