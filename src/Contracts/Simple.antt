-- ===== src/Contracts/Simple.antt =====
-- That the contract of a simple schema means what its type names say.
use nodus.Prelude.{◌≡◌, refl, Bool, true, false, Option, none, some, List, [], ◌∷◌, ◌&&◌, String}
use nodus.Prelude.Dict.{lookup}
use nodus.Contracts.Values.{
  Value, Values, Fields, nil, boolean, integer, real, list, string, dict, record_of, no_values,
  value, no_fields, field, get,
}
use nodus.Contracts.Normalize.{
  Normalized, schema, refused, unknown_type, says_object, type_only, simple_form,
  normalize_runtime_schema,
}
use nodus.Contracts.Validate.{
  Verdict, valid, is_string, is_integer, is_number, is_boolean, is_map, is_list, is_nil, has,
  validate_args,
}

-- The type names of a simple schema, and the values that each of them admits: a float admits an int,
-- an int does not admit a bool, and a map and a record admit each other.
pub data TypeName : Type 0 where
  any string_type int_type float_type bool_type map_type record_type list_type nil_type : TypeName

abbrev pub name_of : TypeName → String
name_of any = "any"
name_of string_type = "string"
name_of int_type = "int"
name_of float_type = "float"
name_of bool_type = "bool"
name_of map_type = "map"
name_of record_type = "record"
name_of list_type = "list"
name_of nil_type = "nil"

abbrev pub admits : TypeName → Value → Bool
admits any v = true
admits string_type (string s) = true
admits int_type (integer z) = true
admits float_type (integer z) = true
admits float_type (real z) = true
admits bool_type (boolean b) = true
admits map_type (dict fs) = true
admits map_type (record_of fs) = true
admits record_type (dict fs) = true
admits record_type (record_of fs) = true
admits list_type (list vs) = true
admits nil_type nil = true
admits t v = false

-- The parameters of a simple schema, and the map that declares them.
abbrev pub Params : Type 0
Params = List (String × TypeName)

abbrev pub declared : Params → Fields
declared [] = no_fields
declared ((name, t) ∷ ps) = field name (string (name_of t)) (declared ps)

-- Every parameter is present, and every argument that is a parameter has its type.
abbrev pub present : Params → Fields → Bool
present [] args = true
present ((name, t) ∷ ps) args = has name args && present ps args

abbrev pub admitted : Option TypeName → Value → Bool
admitted none v = true
admitted (some t) v = admits t v

abbrev pub typed : Params → Fields → Bool
typed ps no_fields = true
typed ps (field key v args) = admitted (lookup key ps) v && typed ps args

abbrev pub accepts : Params → Option Fields → Bool
accepts ps none = false
accepts ps (some args) = present ps args && typed ps args

abbrev pub is_valid : Verdict → Bool
is_valid valid = true
is_valid _ = false

-- what the parameters are normalized to
abbrev prop_of : TypeName → Fields
prop_of any = no_fields
prop_of string_type = type_only "string"
prop_of int_type = type_only "integer"
prop_of float_type = type_only "number"
prop_of bool_type = type_only "boolean"
prop_of map_type = type_only "object"
prop_of record_type = type_only "object"
prop_of list_type = type_only "array"
prop_of nil_type = type_only "null"

abbrev props_of : Params → List (String × Fields)
props_of [] = []
props_of ((name, t) ∷ ps) = (name, prop_of t) ∷ props_of ps

abbrev names_of : Params → Values
names_of [] = no_values
names_of ((name, t) ∷ ps) = value (string name) (names_of ps)

-- the test that a type name leads to
abbrev test_of : TypeName → Value → Bool
test_of any v = true
test_of string_type v = is_string v
test_of int_type v = is_integer v
test_of float_type v = is_number v
test_of bool_type v = is_boolean v
test_of map_type v = is_map v
test_of record_type v = is_map v
test_of list_type v = is_list v
test_of nil_type v = is_nil v

-- the verdict of the contract that a schema is normalized to, if it is
abbrev pub valid_under : Option Normalized → Value → Bool
valid_under (some (schema s)) args = is_valid (validate_args args s)
valid_under _ args = false

-- In a schema without a type of "object", a parameter whose type is given by a map makes the
-- normalization raise, while the same type given by a record is refused with a message. The
-- parameter is the first one.
pub nested_schema-raises :
    (name : String) (inner rest : Fields)
    → says_object (get "type" (field name (dict inner) rest)) ≡ false
    → says_object (get "type" (field name (record_of inner) rest)) ≡ false
    → (normalize_runtime_schema (dict (field name (dict inner) rest)) ≡ none)
      × (normalize_runtime_schema (dict (field name (record_of inner) rest))
          ≡ some (refused (unknown_type (record_of inner) name)))
unfolding normalize_runtime_schema simple_form
nested_schema-raises name inner rest h k = (rw h refl, rw k refl)
