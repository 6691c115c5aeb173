-- ===== src/Types/Tests.antt =====
-- Some types, combined and compared.
use nodus.Prelude.{◌≡◌, refl, false}
use nodus.Types.{nodus_type, is_assignable, combine_types}

widens : combine_types (nodus_type "int") (nodus_type "float") ≡ nodus_type "float"
unfolding combine_types
widens = refl

narrows_not : is_assignable (nodus_type "int") (nodus_type "float") ≡ false
unfolding is_assignable
narrows_not = refl
