-- ===== src/Json.antt =====
-- The arguments of a tool call, and the other JSON values that src/ passes about: trees, where an
-- object's field may also be undefined. Numbers are naturals: they are compared and printed only.
use text.Mathlib.TextEquality.{eq_iff}
use b2_mcp.Base.{
  Bool, String, ap, arith, false, if◌then◌else◌, not, refl, str_eq, str_eq_refl, true, ℕ, ◌||◌, ◌↔◌,
  ◌≡◌,
}

mutual
  pub data Json : Type 0 where
    undefined null : Json
    bool : Bool → Json
    num : ℕ → Json
    str : String → Json
    arr : Items → Json
    obj : Fields → Json

  pub data Items : Type 0 where
    nil : Items
    cons : Json → Items → Items

  pub data Fields : Type 0 where
    end : Fields
    field : String → Json → Fields → Fields

-- `fields[key]`
abbrev pub get : String → Fields → Json
get k end = undefined
get k (field j v fs) = if str_eq j k then v else get k fs

-- `{ ...fields, [key]: v }`
abbrev pub set_field : String → Json → Fields → Fields
set_field k v end = field k v end
set_field k v (field j w fs) =
    let rest = set_field k v fs in if str_eq j k then field j v fs else field j w rest

-- `delete fields[key]`
abbrev pub delete_field : String → Fields → Fields
delete_field k end = end
delete_field k (field j w fs) =
    let rest = delete_field k fs in if str_eq j k then rest else field j w rest

-- The fields of an object, or none.
abbrev pub fields_of : Json → Fields
fields_of (obj fs) = fs
fields_of _ = end

-- The items of an array, or none.
abbrev pub items_of : Json → Items
items_of (arr xs) = xs
items_of _ = nil

abbrev pub is_array : Json → Bool
is_array (arr xs) = true
is_array _ = false

-- `v === null`, `v == null`, `v === true`, `v === false`, `v === "text"`, `v === undefined`
abbrev pub is_null : Json → Bool
is_null null = true
is_null _ = false

abbrev pub is_nullish : Json → Bool
is_nullish undefined = true
is_nullish null = true
is_nullish _ = false

abbrev pub is_true : Json → Bool
is_true (bool b) = b
is_true _ = false

abbrev pub is_false : Json → Bool
is_false (bool b) = not b
is_false _ = false

abbrev pub is_str : String → Json → Bool
is_str t (str s) = str_eq s t
is_str t _ = false

abbrev pub is_undefined : Json → Bool
is_undefined undefined = true
is_undefined _ = false

-- `items.some(test)`
abbrev pub some_item : (Json → Bool) → Items → Bool
some_item p nil = false
some_item p (cons v xs) = p v || some_item p xs

pub is_true_iff : (v : Json) → (is_true v ≡ true) ↔ (v ≡ bool true)
is_true_iff (bool b) = (λ e. ap bool e, λ e. cc)
is_true_iff undefined = (λ e. cc, λ e. cc)
is_true_iff _ = (λ e. cc, λ e. cc)

pub get-set_field :
    (j k : String) (v : Json) (fs : Fields)
    → get j (set_field k v fs) ≡ (if str_eq k j then v else get j fs)
get-set_field j k v end = refl
get-set_field j k v (field i w fs) =
    ground (arith, eq_iff k j, eq_iff i k, eq_iff i j, get-set_field j k v fs)

-- A field that is deleted may be set before.
pub delete_field-set_field :
    (k : String) (v : Json) (fs : Fields) → delete_field k (set_field k v fs) ≡ delete_field k fs
delete_field-set_field k v end = rw (str_eq_refl k)
delete_field-set_field k v (field i w fs) =
    ground (arith, eq_iff i k, delete_field-set_field k v fs)
