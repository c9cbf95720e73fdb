-- ===== src/Value.antt =====
-- The values of type `unknown` that the error helpers inspect: src/utils/named-error.ts,
-- src/utils/errors.ts, src/utils/retry.ts and src/utils/circuit-breaker.ts.
-- An object is an address of a store, so that causes may be shared and cyclic. A field of the
-- store's object is what reading that property returns, own or inherited. Numbers are naturals.
use b2_mcp.Base.{
  ℕ, String, Bool, true, false, if◌then◌else◌, Option, none, some, List, lookup, get_elem?, str_eq,
}

pub data Value : Type 0 where
  undefined null : Value
  bool : Bool → Value
  num : ℕ → Value
  str : String → Value
  ref : ℕ → Value

abbrev pub Fields : Type 0
Fields = List (String × Value)

abbrev pub Store : Type 0
Store = List Fields

-- `typeof v === "object" && v !== null`
abbrev pub is_object : Value → Bool
is_object (ref a) = true
is_object _ = false

abbrev pub or_undefined : Option Value → Value
or_undefined none = undefined
or_undefined (some v) = v

abbrev pub field_of : Option Fields → String → Value
field_of none k = undefined
field_of (some fs) k = or_undefined (lookup k fs)

-- `v?.k`: a primitive has none of the properties that the code reads.
abbrev pub prop : Store → Value → String → Value
prop h (ref a) k = field_of (get_elem? h a) k
prop h _ k = undefined

-- `typeof v === "number"` and `typeof v === "string"`, with the value.
abbrev pub as_num : Value → Option ℕ
as_num (num n) = some n
as_num _ = none

abbrev pub as_str : Value → Option String
as_str (str s) = some s
as_str _ = none

-- `v === "text"`
abbrev pub is_text : Value → String → Bool
is_text (str s) t = str_eq s t
is_text _ t = false

-- `a ?? b`
abbrev pub coalesce : Value → Value → Value
coalesce undefined b = b
coalesce null b = b
coalesce a b = a

-- `typeof v === "string" && v !== ""`, with the value.
abbrev pub nonempty_str : Value → Option String
nonempty_str (str s) = if str_eq s "" then none else some s
nonempty_str _ = none
