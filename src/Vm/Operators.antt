-- ===== src/Vm/Operators.antt =====
-- The operators of vm.py on values: `_op_div`, `_op_mod`, `_nodus_eq` and `is_truthy`, with the type
-- errors of the others. Python's operators on the values are a parameter.
use nodus.Prelude.{Bool, false, not, ◌&&◌, ◌||◌, Option, none, some, if◌then◌else◌}
use nodus.Vm.State.{Fault, type_error, division_by_zero, modulo_by_zero}

-- Python's operators as the code calls them; `none` is a TypeError. `float a` is `float(a)`, a
-- `boolean` is an instance of `bool`, which Python counts as an `int`.
pub record PythonOps (V : Type 0) : Type 0 where
  pub nil : V
  pub boolean : Bool → V
  pub is_nil : V → Bool
  pub is_int : V → Bool
  pub is_float : V → Bool
  pub is_bool : V → Bool
  pub same_type : V → V → Bool
  pub truth : V → Bool
  pub equal : V → V → Bool
  pub float : V → V
  pub is_zero : V → Bool
  pub plus : V → V → Option V
  pub minus : V → V → Option V
  pub times : V → V → Option V
  pub less : V → V → Option V
  pub greater : V → V → Option V
  pub less_equal : V → V → Option V
  pub greater_equal : V → V → Option V
  pub negate : V → Option V
  pub floor_divide : V → V → V
  pub remainder : V → V → V
  pub divide : V → V → V

pub data Binary : Type 0 where
  add sub mul div mod_op eq_op ne_op lt_op gt_op le_op ge_op : Binary

pub data Unary : Type 0 where
  to_bool not_op neg : Unary

-- a value, or the error that the instruction raises
pub data Answer (V : Type 0) : Type 0 where
  value : V → Answer V
  error : Fault → Answer V

abbrev pub or_type_error : {V : Type 0} → Option V → Answer V
or_type_error none = error type_error
or_type_error (some v) = value v

module _ {V : Type 0} (py : PythonOps V) where
  -- VM.is_truthy
  unfoldable pub is_truthy : V → Bool
  is_truthy v = if py.is_nil v then false else py.truth v

  -- `isinstance(a, int) and not isinstance(a, bool)`
  abbrev pub is_integer : V → Bool
  is_integer a = py.is_int a && not (py.is_bool a)

  abbrev pub is_number : V → Bool
  is_number a = py.is_int a || py.is_float a

  -- the common shape of `_op_div` and `_op_mod`
  abbrev pub divided : Fault → (V → V → V) → (V → V → V) → V → V → Answer V
  divided fault on_ints on_floats a b =
      if is_integer a && is_integer b
      then (if py.is_zero b then error fault else value (on_ints a b))
      else if not (is_number a) || not (is_number b)
      then error type_error
      else if py.is_zero (py.float b)
      then error fault
      else value (on_floats (py.float a) (py.float b))

  -- VM._nodus_eq
  unfoldable pub nodus_eq : V → V → Bool
  nodus_eq a b =
      let a_num = is_number a && not (py.is_bool a) in
      let b_num = is_number b && not (py.is_bool b) in
      if a_num && b_num
      then py.equal (py.float a) (py.float b)
      else if py.is_bool a || py.is_bool b
      then py.same_type a b && py.equal a b
      else py.equal a b

  unfoldable pub binary : Binary → V → V → Answer V
  unfolding nodus_eq
  binary add a b = or_type_error (py.plus a b)
  binary sub a b = or_type_error (py.minus a b)
  binary mul a b = or_type_error (py.times a b)
  binary div a b = divided division_by_zero py.floor_divide py.divide a b
  binary mod_op a b = divided modulo_by_zero py.remainder py.remainder a b
  binary eq_op a b = value (py.boolean (nodus_eq a b))
  binary ne_op a b = value (py.boolean (not (nodus_eq a b)))
  binary lt_op a b = or_type_error (py.less a b)
  binary gt_op a b = or_type_error (py.greater a b)
  binary le_op a b = or_type_error (py.less_equal a b)
  binary ge_op a b = or_type_error (py.greater_equal a b)

  unfoldable pub unary : Unary → V → Answer V
  unfolding is_truthy
  unary to_bool a = value (py.boolean (is_truthy a))
  unary not_op a = value (py.boolean (not (is_truthy a)))
  unary neg a = or_type_error (py.negate a)
