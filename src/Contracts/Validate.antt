-- ===== src/Contracts/Validate.antt =====
-- src/nodus/runtime/schema_contract.py: `check_json_type`, `validate_args` and `validate_return`, for
-- a schema that `normalize_runtime_schema` gave.
use text.Mathlib.Text.{◌==◌}
use nodus.Prelude.{Bool, true, false, Option, none, some, List, String, if◌then◌else◌}
use nodus.Prelude.Dict.{lookup}
use nodus.Contracts.Values.{
  Value, Values, Fields, nil, boolean, integer, real, string, list, dict, record_of, no_values,
  value, no_fields, field, get, as_dict, hashable,
}
use nodus.Contracts.Normalize.{Schema, unconstrained, object_of}

-- No message, or one. An exception is a message of its own.
pub data Verdict : Type 0 where
  valid args_not_a_map not_a_map_returned exception : Verdict
  missing : Value → Verdict
  wrong_type : String → String → Verdict

abbrev pub is_string : Value → Bool
is_string (string s) = true
is_string _ = false

-- an int that is no bool
abbrev pub is_integer : Value → Bool
is_integer (integer z) = true
is_integer _ = false

abbrev pub is_number : Value → Bool
is_number (integer z) = true
is_number (real z) = true
is_number _ = false

abbrev pub is_boolean : Value → Bool
is_boolean (boolean b) = true
is_boolean _ = false

abbrev pub is_map : Value → Bool
is_map (dict fs) = true
is_map (record_of fs) = true
is_map _ = false

abbrev pub is_list : Value → Bool
is_list (list vs) = true
is_list _ = false

abbrev pub is_nil : Value → Bool
is_nil nil = true
is_nil _ = false

-- the test of `check_json_type`; a type that it does not name is not checked
abbrev pub conforms : Value → String → Bool
conforms v t =
    if t == "string"
    then is_string v
    else if t == "integer"
    then is_integer v
    else if t == "number"
    then is_number v
    else if t == "boolean"
    then is_boolean v
    else if t == "object"
    then is_map v
    else if t == "array"
    then is_list v
    else if t == "null"
    then is_nil v
    else true

abbrev pub check_json_type : Value → String → String → Verdict
check_json_type v expected key = if conforms v expected then valid else wrong_type key expected

-- `if "type" in prop: check_json_type(...)`
abbrev pub check_type : Value → Option Value → String → Verdict
check_type v (some (string expected)) key = check_json_type v expected key
check_type v _ key = valid

abbrev pub check_prop : Value → Option Fields → String → Verdict
check_prop v none key = valid
check_prop v (some prop) key = check_type v (get "type" prop) key

-- `if err: return err`, and else the rest
abbrev pub unless_wrong : Verdict → Verdict → Verdict
unless_wrong valid rest = rest
unless_wrong err rest = err

abbrev pub has : String → Fields → Bool
has key no_fields = false
has key (field name v fs) = if name == key then true else has key fs

-- `req not in args_d`
abbrev pub check_required : Value → Fields → Verdict
check_required (string name) args = if has name args then valid else missing (string name)
check_required req args = if hashable req then missing req else exception

unfoldable pub required_loop : Values → Fields → Verdict
required_loop no_values args = valid
required_loop (value req reqs) args =
    unless_wrong (check_required req args) (required_loop reqs args)

unfoldable pub types_loop : List (String × Fields) → Fields → Verdict
types_loop props no_fields = valid
types_loop props (field key v args) =
    unless_wrong (check_prop v (lookup key props) key) (types_loop props args)

abbrev pub validate_fields : Option Fields → List (String × Fields) → Values → Verdict
validate_fields none props req = args_not_a_map
validate_fields (some args) props req =
    unless_wrong (required_loop req args) (types_loop props args)

-- `as_dict(args) if args is not None else {}`
abbrev pub args_of : Value → Option Fields
args_of nil = some no_fields
args_of args = as_dict args

unfoldable pub validate_args : Value → Schema → Verdict
validate_args args unconstrained = valid
validate_args args (object_of props req) = validate_fields (args_of args) props req

unfoldable pub validate_return : Value → Schema → Verdict
unfolding validate_args
validate_return result unconstrained = valid
validate_return result (object_of props req) =
    if is_map result then validate_args result (object_of props req) else not_a_map_returned
