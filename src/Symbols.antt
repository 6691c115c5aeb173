-- ===== src/Symbols.antt =====
-- src/nodus/compiler/symbol_table.py: scopes, slots and captured variables. The chain of scopes
-- from `current` through the `parent` fields is a list, the innermost scope first.
pub mod Define
pub mod Resolve
pub mod Scopes
pub mod Stable
pub mod Table
pub mod Tests
use Prim.Native.String.{String}
use nodus.Prelude.{
  ℕ, suc, ◌+◌, Bool, true, false, not, ◌||◌, Option, none, some, List, [], ◌∷◌, ◌++◌, if◌then◌else◌,
  length,
}
use nodus.Prelude.Dict.{Dict, lookup, insert}

-- Scope.kind
pub data Kind : Type 0 where
  module_scope function_scope block_scope : Kind

-- Symbol.scope
pub data Storage : Type 0 where
  global local upvalue : Storage

pub record Symbol : Type 0 where
  pub name : String
  pub scope : Storage
  pub index : Option ℕ
  pub is_function : Bool

pub record Upvalue : Type 0 where
  pub name : String
  pub is_local : Bool
  pub index : Option ℕ

pub record Scope : Type 0 where
  pub kind : Kind
  pub symbols : Dict Symbol
  pub upvalues : List Upvalue
  pub local_slot_counter : ℕ
  pub all_local_slots : Dict ℕ

pub record SymbolTable : Type 0 where
  pub scopes : List Scope
  pub all_symbols : List String

abbrev pub is_function_scope : Kind → Bool
is_function_scope function_scope = true
is_function_scope _ = false

abbrev pub is_block : Kind → Bool
is_block block_scope = true
is_block _ = false

abbrev pub is_global : Storage → Bool
is_global global = true
is_global _ = false

abbrev pub is_upvalue : Storage → Bool
is_upvalue upvalue = true
is_upvalue _ = false

unfoldable pub new_scope : Kind → Scope
new_scope k = record {
  kind = k;
  symbols = [];
  upvalues = [];
  local_slot_counter = 0;
  all_local_slots = [];
}

-- SymbolTable.__init__
unfoldable pub new_table : SymbolTable
unfolding new_scope
new_table = record { scopes = new_scope module_scope ∷ []; all_symbols = [] }

unfoldable pub enter_scope : Kind → SymbolTable → SymbolTable
unfolding new_scope
enter_scope k t = record t { scopes = new_scope k ∷ t.scopes }

-- The innermost scope is left if it has a parent.
unfoldable pub leave : List Scope → List Scope
leave (s ∷ p ∷ ps) = p ∷ ps
leave ss = ss

unfoldable pub exit_scope : SymbolTable → SymbolTable
unfolding leave
exit_scope t = record t { scopes = leave t.scopes }

abbrev pub put_symbol : Symbol → Scope → Scope
put_symbol x s = record s { symbols = insert x.name x s.symbols }

abbrev pub slot_taken : String → Scope → Scope
slot_taken name s = record s {
  all_local_slots = insert name s.local_slot_counter s.all_local_slots;
  local_slot_counter = s.local_slot_counter + 1;
}

-- `_current_function_scope` of `frame_size`, and of the slot that `define` gives out
unfoldable pub next_slot : List Scope → Option ℕ
next_slot [] = none
next_slot (s ∷ ss) = if is_function_scope s.kind then some s.local_slot_counter else next_slot ss

unfoldable pub take_slot : String → List Scope → List Scope
take_slot name [] = []
take_slot name (s ∷ ss) =
    if is_function_scope s.kind then slot_taken name s ∷ ss else s ∷ take_slot name ss

abbrev pub symbol_of : String → Storage → Option ℕ → Bool → Symbol
symbol_of n s i f = record { name = n; scope = s; index = i; is_function = f }

abbrev pub define_in : String → Bool → List Scope → List Scope × Symbol
define_in n f [] = ([], symbol_of n global none f)
define_in n f (s ∷ ss) = elim s.kind [
  | module_scope ↦ let x = symbol_of n global none f in (put_symbol x s ∷ ss, x)
  | _ ↦ let x = symbol_of n local (next_slot (s ∷ ss)) f in (take_slot n (put_symbol x s ∷ ss), x)
]

-- SymbolTable.define
unfoldable pub define : String → Bool → SymbolTable → SymbolTable × Symbol
define n f t =
    let (ss, x) = define_in n f t.scopes in
    (record t { scopes = ss; all_symbols = n ∷ t.all_symbols }, x)

unfoldable pub resolve_local : String → List Scope → Option Symbol
resolve_local n [] = none
resolve_local n (s ∷ ss) =
    let outer = resolve_local n ss in
    elim (lookup n s.symbols) [ some x ↦ some x | none ↦ if is_block s.kind then outer else none ]

unfoldable pub has_function : List Scope → Bool
has_function [] = false
has_function (s ∷ ss) = is_function_scope s.kind || has_function ss

-- the loop of `_resolve_upvalue_in` for a function that no function encloses
abbrev pub global_or : Option Symbol → Option Symbol → Option Symbol
global_or none other = other
global_or (some x) other = if is_global x.scope then some x else other

unfoldable pub find_global : String → List Scope → Option Symbol
find_global n [] = none
find_global n (s ∷ ss) = global_or (lookup n s.symbols) (find_global n ss)

-- The symbol that a name has in a scope already, if it is an upvalue there.
abbrev pub captured : Option Symbol → Option Symbol
captured none = none
captured (some x) = if is_upvalue x.scope then some x else none

abbrev pub capture : Scope → Symbol → Bool → Scope × Symbol
capture f x is_local =
    let up = symbol_of x.name upvalue (some (length f.upvalues)) false in
    (
      record (put_symbol up f) {
        upvalues =
            f.upvalues ++ record { name = x.name; is_local = is_local; index = x.index } ∷ [];
      },
      up,
    )

-- SymbolTable._add_upvalue
unfoldable pub add_upvalue : Scope → Symbol → Bool → Scope × Symbol
add_upvalue f x is_local = elim (captured (lookup x.name f.symbols)) [
  | some y ↦ (f, y)
  | none ↦ capture f x is_local
]

-- What `_resolve_upvalue_in` finds for the function `func`, whose scope and whose enclosing scopes
-- it may change.
pub record Resolved : Type 0 where
  pub func : Scope
  pub outer : List Scope
  pub found : Option Symbol

abbrev pub added : Scope × Symbol → List Scope → Resolved
added (f, x) ss = record { func = f; outer = ss; found = some x }

-- the symbol was found in the scope `s`, on the way out to the enclosing function or in it
abbrev pub capture_from : Scope → Scope → List Scope → Symbol → Resolved
capture_from func s ss x =
    if is_global x.scope
    then record { func = func; outer = s ∷ ss; found = some x }
    else added
        (add_upvalue func x (if is_function_scope s.kind then not (is_upvalue x.scope) else true))
        (s ∷ ss)

-- the symbol was resolved in the enclosing function
abbrev pub capture_outer : Scope → Resolved → Resolved
capture_outer func r = elim r.found [
  | none ↦ record { func = func; outer = r.func ∷ r.outer; found = none }
  | some x ↦
      if is_global x.scope
      then record { func = func; outer = r.func ∷ r.outer; found = some x }
      else added (add_upvalue func x false) (r.func ∷ r.outer)
]

abbrev pub keep_block : Scope → Resolved → Resolved
keep_block s r = record { func = r.func; outer = s ∷ r.outer; found = r.found }

-- SymbolTable._resolve_upvalue_in
unfoldable pub resolve_upvalue_in : String → Scope → List Scope → Resolved
unfolding add_upvalue
resolve_upvalue_in n func [] = record { func = func; outer = []; found = none }
resolve_upvalue_in n func (s ∷ ss) =
    let in_function = capture_outer func (resolve_upvalue_in n s ss) in
    let past_block = keep_block s (resolve_upvalue_in n func ss) in
    let nothing : Resolved = record {
      func = func;
      outer = s ∷ ss;
      found = find_global n (s ∷ ss);
    } in
    elim (has_function (s ∷ ss)) [
      | false ↦ nothing
      | true ↦ elim (lookup n s.symbols) [
        | some x ↦ capture_from func s ss x
        | none ↦ if is_function_scope s.kind then in_function else past_block
      ]
    ]

-- SymbolTable.resolve_upvalue, from the innermost function scope
unfoldable pub resolve_upvalue : String → List Scope → List Scope × Option Symbol
resolve_upvalue n [] = ([], none)
resolve_upvalue n (s ∷ ss) =
    let inner = resolve_upvalue n ss in
    let here = resolve_upvalue_in n s ss in
    if is_function_scope s.kind
    then (here.func ∷ here.outer, here.found)
    else (s ∷ inner.0, inner.1)

unfoldable pub resolve_chain : String → List Scope → List Scope × Option Symbol
resolve_chain n ss =
    let up = resolve_upvalue n ss in elim (resolve_local n ss) [ some x ↦ (ss, some x) | none ↦ up ]

abbrev pub noted : Option Symbol → List String → List String
noted none names = names
noted (some x) names = if is_upvalue x.scope then x.name ∷ names else names

-- SymbolTable.resolve; a name that a capture adds to the set `all_symbols` is noted once
unfoldable pub resolve : String → SymbolTable → SymbolTable × Option Symbol
resolve n t =
    let (ss, x) = resolve_chain n t.scopes in
    (record { scopes = ss; all_symbols = noted x t.all_symbols }, x)

-- SymbolTable.frame_size
unfoldable pub frame_size : SymbolTable → ℕ
unfolding next_slot
frame_size t = elim (next_slot t.scopes) [ none ↦ 0 | some n ↦ n ]

-- SymbolTable.current_function_upvalues
unfoldable pub function_upvalues : List Scope → List Upvalue
function_upvalues [] = []
function_upvalues (s ∷ ss) = if is_function_scope s.kind then s.upvalues else function_upvalues ss
