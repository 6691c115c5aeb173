-- ===== src/Symbols/Tests.antt =====
-- A function inside a function that reads a local of the outer one, and the theorems there.
use Prim.Native.String.{String}
use nodus.Prelude.{◌≡◌, inl, inr, refl, false, none, some}
use nodus.Prelude.Dict.{lookup, insert}
use nodus.Symbols.{
  Kind, function_scope, block_scope, global, upvalue, SymbolTable, symbol_of, new_table,
  enter_scope, define, resolve, resolve_chain, resolve_local, resolve_upvalue, resolve_upvalue_in,
  has_function, take_slot, next_slot, function_upvalues, find_global,
}
use nodus.Symbols.Scopes.{IsWellFormed, Extends}
use nodus.Symbols.Table.{AnswerOk, resolve-IsWellFormed, scopes-IsWellFormed}
use nodus.Symbols.Stable.{IsNested}

-- let g = 0; fn outer() { let a = 1; fn() { ...
abbrev outer : SymbolTable
outer = (define "a" false (enter_scope function_scope (define "g" false new_table).0)).0

abbrev inner : SymbolTable
inner = enter_scope block_scope (enter_scope function_scope outer)

new_table-IsWellFormed : IsWellFormed new_table.scopes
unfolding new_table lookup
new_table-IsWellFormed =
    (record { named = λ m x e. cc; indexed = λ m x e u. cc; plain = inr refl }, tt, tt)

defined :
    (n : String) (t : SymbolTable)
    → IsWellFormed t.scopes
    → IsWellFormed (define n false t).0.scopes
defined n t wf = (scopes-IsWellFormed n false block_scope t wf).0

entered :
    (k : Kind) (t : SymbolTable) → IsWellFormed t.scopes → IsWellFormed (enter_scope k t).scopes
entered k t wf = (scopes-IsWellFormed "x" false k t wf).1

inner-IsWellFormed : IsWellFormed inner.scopes
inner-IsWellFormed = entered block_scope (enter_scope function_scope outer) (
    entered function_scope outer (
      defined "a" (enter_scope function_scope (define "g" false new_table).0) (
        entered function_scope (define "g" false new_table).0
          (defined "g" new_table new_table-IsWellFormed))))

inner-IsNested : IsNested inner.scopes
unfolding enter_scope define new_table next_slot take_slot lookup insert
inner-IsNested = (inl refl, (inr (inl refl), (inr (inl refl), (inr (inr refl), tt))))

captures : (resolve "a" inner).1 ≡ some (symbol_of "a" upvalue (some 0) false)
unfolding resolve resolve_chain resolve_local resolve_upvalue resolve_upvalue_in has_function
    enter_scope define new_table next_slot take_slot lookup insert
captures = refl

resolves_global : (resolve "g" inner).1 ≡ some (symbol_of "g" global none false)
unfolding resolve resolve_chain resolve_local resolve_upvalue resolve_upvalue_in has_function
    find_global enter_scope define new_table next_slot take_slot lookup insert
resolves_global = refl

resolve-IsWellFormed_example :
    IsWellFormed (resolve "a" inner).0.scopes
    × Extends (function_upvalues inner.scopes) (function_upvalues (resolve "a" inner).0.scopes)
    × AnswerOk (resolve "a" inner).0.scopes (resolve "a" inner).1
resolve-IsWellFormed_example = resolve-IsWellFormed "a" inner inner-IsWellFormed
