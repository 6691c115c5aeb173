-- ===== src/Contracts/Normalize.antt =====
-- src/nodus/runtime/schema_contract.py: `normalize_runtime_schema`.
use nodus.Prelude.{Bool, false, Option, none, some, List, [], ◌∷◌, String, if◌then◌else◌}
use nodus.Contracts.Values.{
  Value, Values, Fields, string, list, dict, no_values, value, no_fields, field, is_text, truthy,
  get, as_dict, fields_of, iterate, hashable, unschemable, json_type,
}

-- What is returned in front: `{}`, or a dict of type "object" with its properties and the names that
-- are required. No entry "required" is the same as an empty one to all who read it.
pub data Schema : Type 0 where
  unconstrained : Schema
  object_of : List (String × Fields) → Values → Schema

-- the error message
pub data Refusal : Type 0 where
  not_a_map : Refusal
  unschemable_type unknown_type : Value → String → Refusal

pub data Normalized : Type 0 where
  schema : Schema → Normalized
  refused : Refusal → Normalized

-- the properties of the JSON form, a record among them turned into a dict
abbrev pub properties : Fields → List (String × Fields)
properties no_fields = []
properties (field name v fs) = (name, fields_of v) ∷ properties fs

-- `d.get(key) or default`
abbrev pub get_or : Option Value → Value → Value
get_or none default = default
get_or (some v) default = if truthy v then v else default

abbrev pub with_required : List (String × Fields) → Option Values → Option Normalized
with_required props none = none
with_required props (some req) = some (schema (object_of props req))

unfoldable pub json_form : Fields → Option Normalized
json_form d =
    with_required (properties (fields_of (get_or (get "properties" d) (dict no_fields))))
      (iterate (get_or (get "required" d) (list no_values)))

-- one more parameter in front of what the rest of the loop gives
abbrev pub with_param : String → Fields → Option Normalized → Option Normalized
with_param name prop (some (schema (object_of props req))) =
    some (schema (object_of ((name, prop) ∷ props) (value (string name) req)))
with_param name prop rest = rest

abbrev pub type_only : String → Fields
type_only t = field "type" (string t) no_fields

abbrev pub no_json_type : Value → String → Option Normalized
no_json_type t name =
    some (refused (if unschemable t then unschemable_type t name else unknown_type t name))

abbrev pub param_of : Value → String → Option String → Option Normalized → Option Normalized
param_of t name (some json) rest = with_param name (type_only json) rest
param_of t name none rest = no_json_type t name

-- the loop over the simple form
unfoldable pub simple_form : Fields → Option Normalized
simple_form no_fields = some (schema (object_of [] no_values))
simple_form (field name t fs) =
    let rest = simple_form fs in
    if is_text "any" t
    then with_param name no_fields rest
    else if hashable t
    then param_of t name (json_type t) rest
    else none

-- `d.get("type") == "object"`
abbrev pub says_object : Option Value → Bool
says_object none = false
says_object (some t) = is_text "object" t

abbrev pub by_form : Option Fields → Option Normalized
by_form none = some (refused not_a_map)
by_form (some d) = if says_object (get "type" d) then json_form d else simple_form d

-- normalize_runtime_schema
unfoldable pub normalize_runtime_schema : Value → Option Normalized
normalize_runtime_schema s = if truthy s then by_form (as_dict s) else some (schema unconstrained)
