-- ===== src/Types.antt =====
-- src/nodus/frontend/type_system.py: the static types, `is_assignable` and `combine_types`. The
-- suggestion for a misspelled name comes from Python's difflib and is left out.
pub mod Laws
pub mod Tests
use nodus.Prelude.{Bool, true, false, ◌&&◌, ◌||◌, Option, none, some, if◌then◌else◌, String}
use nodus.Prelude.Dict.{Dict, lookup}
use text.Mathlib.Text.{◌==◌}

-- NodusType and its subclass FunctionType
mutual
  pub data NodusType : Type 0 where
    nodus_type : String → NodusType
    function_type : Params → NodusType → NodusType

  pub data Params : Type 0 where
    no_params : Params
    param : NodusType → Params → Params

abbrev pub name : NodusType → String
name (nodus_type n) = n
name (function_type ps r) = "function"

-- NodusType.__eq__: types are equal by name
abbrev pub same : NodusType → String → Bool
same t n = name t == n

abbrev pub equal : NodusType → NodusType → Bool
equal a b = same a (name b)

abbrev pub is_function : NodusType → Bool
is_function (nodus_type n) = false
is_function (function_type ps r) = true

abbrev pub is_known_type_name : String → Bool
is_known_type_name n =
    n == "any"
    || n == "int"
    || n == "float"
    || n == "string"
    || n == "bool"
    || n == "list"
    || n == "map"
    || n == "record"
    || n == "function"
    || n == "nil"

-- parse_type_name: a missing or unknown name means any type
unfoldable pub parse_type_name : Option String → NodusType
parse_type_name none = nodus_type "any"
parse_type_name (some n) = if is_known_type_name n then nodus_type n else nodus_type "any"

unfoldable pub is_assignable : NodusType → NodusType → Bool
is_assignable expected actual =
    if same expected "any" || same actual "any"
    then true
    else if same expected "float" && same actual "int"
    then true
    else if same expected "function" && is_function actual
    then true
    else if same expected "map" && same actual "record"
        || same expected "record" && same actual "map"
    then true
    else equal expected actual

unfoldable pub combine_types : NodusType → NodusType → NodusType
combine_types left right =
    if equal left right
    then left
    else if same left "any" || same right "any"
    then nodus_type "any"
    else if same left "int" && same right "float" || same left "float" && same right "int"
    then nodus_type "float"
    else nodus_type "any"
