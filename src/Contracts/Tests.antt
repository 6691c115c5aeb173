-- ===== src/Contracts/Tests.antt =====
-- Schemas normalized and arguments checked, and the theorems of the contracts at concrete values.
use nodus.Prelude.{◌≡◌, refl, true, none, some, [], ◌∷◌}
use nodus.Prelude.Dict.{lookup}
use nodus.Contracts.Values.{
  Value, nil, boolean, string, list, dict, record_of, no_values, value, no_fields, field, get,
}
use nodus.Contracts.Normalize.{
  schema, refused, unconstrained, object_of, unknown_type, type_only, json_form,
  normalize_runtime_schema,
}
use nodus.Contracts.Validate.{
  wrong_type, not_a_map_returned, required_loop, types_loop, validate_args, validate_return,
}
use nodus.Contracts.Simple.{nested_schema-raises}

abbrev declares : Value
declares = dict (field "path" (string "string") (field "size" (string "float") no_fields))

-- a JSON schema whose property is a record
abbrev json_schema : Value
json_schema = dict (
    field "type" (string "object") (
      field "properties" (dict (field "n" (record_of (type_only "integer")) no_fields))
        (field "required" (list (value (string "n") no_values)) no_fields)))

json_properties :
    normalize_runtime_schema json_schema
    ≡ some (schema (object_of (("n", type_only "integer") ∷ []) (value (string "n") no_values)))
unfolding normalize_runtime_schema get json_form
json_properties = refl

empty_schema : normalize_runtime_schema (dict no_fields) ≡ some (schema unconstrained)
unfolding normalize_runtime_schema
empty_schema = refl

no_bool_for_int :
    validate_args
      (dict (field "n" (boolean true) no_fields))
      (object_of (("n", type_only "integer") ∷ []) no_values)
    ≡ wrong_type "n" "integer"
unfolding validate_args required_loop types_loop lookup get
no_bool_for_int = refl

nil_returned : validate_return nil (object_of [] no_values) ≡ not_a_map_returned
unfolding validate_return
nil_returned = refl

nested_schema-raises_example :
    (normalize_runtime_schema (dict (field "n" (dict (type_only "int")) no_fields)) ≡ none)
    × (normalize_runtime_schema (dict (field "n" (record_of (type_only "int")) no_fields))
        ≡ some (refused (unknown_type (record_of (type_only "int")) "n")))
unfolding get
nested_schema-raises_example = nested_schema-raises "n" (type_only "int") no_fields refl refl
