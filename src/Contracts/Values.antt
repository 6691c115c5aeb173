-- ===== src/Contracts/Values.antt =====
-- src/nodus/runtime/schema_contract.py: the values, `as_dict` and the vocabulary of types, with what
-- Python says of a value's truth, of iterating it and of hashing it.
use Prim.Native.String.{[] as empty_text, ◌∷◌ as letter}
use text.Mathlib.Text.{◌==◌}
use nodus.Prelude.{Bool, true, false, not, Option, none, some, [], ◌∷◌, String, if◌then◌else◌}
use nodus.Prelude.Dict.{Dict, lookup}

mutual
  pub data Value : Type 0 where
    nil : Value
    boolean : Bool → Value
    -- a number, and whether it is zero
    integer real : Bool → Value
    string : String → Value
    list : Values → Value
    dict : Fields → Value
    record_of : Fields → Value
    -- a function or another object of the host
    object : Value

  pub data Values : Type 0 where
    no_values : Values
    value : Value → Values → Values

  pub data Fields : Type 0 where
    no_fields : Fields
    field : String → Value → Fields → Fields

abbrev pub is_text : String → Value → Bool
is_text s (string t) = t == s
is_text s _ = false

-- bool(value)
abbrev pub truthy : Value → Bool
truthy nil = false
truthy (boolean b) = b
truthy (integer z) = not z
truthy (real z) = not z
truthy (string empty_text) = false
truthy (string (letter c s)) = true
truthy (list no_values) = false
truthy (list (value v vs)) = true
truthy (dict no_fields) = false
truthy (dict (field k v fs)) = true
truthy (record_of fs) = true
truthy object = true

unfoldable pub get : String → Fields → Option Value
get key no_fields = none
get key (field name v fs) = if name == key then some v else get key fs

-- as_dict
abbrev pub as_dict : Value → Option Fields
as_dict (record_of fs) = some fs
as_dict (dict fs) = some fs
as_dict _ = none

-- `as_dict(v) or {}`
abbrev pub fields_of : Value → Fields
fields_of (record_of fs) = fs
fields_of (dict fs) = fs
fields_of _ = no_fields

abbrev pub characters : String → Values
characters empty_text = no_values
characters (letter c s) = value (string (letter c empty_text)) (characters s)

abbrev pub keys : Fields → Values
keys no_fields = no_values
keys (field name v fs) = value (string name) (keys fs)

-- list(value): only a list, a str and a dict can be iterated
abbrev pub iterate : Value → Option Values
iterate (list vs) = some vs
iterate (string s) = some (characters s)
iterate (dict fs) = some (keys fs)
iterate _ = none

-- a list and a dict have no hash
abbrev pub hashable : Value → Bool
hashable (list vs) = false
hashable (dict fs) = false
hashable _ = true

-- NODUS_TO_JSON_TYPE
abbrev pub nodus_to_json_type : Dict String
nodus_to_json_type =
    ("string", "string")
    ∷ ("int", "integer")
    ∷ ("float", "number")
    ∷ ("bool", "boolean")
    ∷ ("map", "object")
    ∷ ("record", "object")
    ∷ ("list", "array")
    ∷ ("nil", "null")
    ∷ []

-- UNSCHEMABLE_TYPES.get(type_name): no reason, or one
abbrev pub unschemable : Value → Bool
unschemable v = is_text "function" v

-- NODUS_TO_JSON_TYPE.get(type_name), for a value with a hash
abbrev pub json_type : Value → Option String
json_type (string t) = lookup t nodus_to_json_type
json_type _ = none
