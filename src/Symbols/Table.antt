-- ===== src/Symbols/Table.antt =====
-- The operations of `SymbolTable` on a well-formed chain of scopes.
use Prim.Native.String.{String}
use mathlib.Core.Path.{subst}
use mathlib.Core.List.{append-nil}
use nodus.Prelude.{
  ℕ, ◌≡◌, ◌⊎◌, inl, inr, refl, sym, ap, ◌∙◌, Bool, true, false, Option, none, some, List, [], ◌∷◌,
  arith, Bool-cases, Option-cases,
}
use nodus.Prelude.Dict.{lookup}
use nodus.Symbols.{
  Kind, Storage, global, local, module_scope, function_scope, block_scope, Symbol, Scope,
  SymbolTable, is_function_scope, is_block, is_upvalue, is_global, function_upvalues,
  resolve_upvalue_in, resolve_upvalue, resolve_local, resolve_chain, resolve, new_scope,
  enter_scope, exit_scope, leave, define, define_in, put_symbol, slot_taken, take_slot, next_slot,
  symbol_of,
}
use nodus.Symbols.Scopes.{
  Indexed, IsIndexed, IsWellFormed, Extends, All-Captures-Extends, put_symbol-IsIndexed,
}
use nodus.Symbols.Resolve.{FoundOk, resolve_upvalue_in-IsResolved}

-- A symbol that is an upvalue is the one at its index among those of the current function.
abbrev pub AnswerOk : List Scope → Option Symbol → Type 0
AnswerOk ss none = Unit
AnswerOk ss (some x) = (is_upvalue x.scope ≡ false) ⊎ Indexed (function_upvalues ss) x

-- The chain after a resolution: well formed, and with the captures that it had.
record ChainOk (ss : List Scope) (r : List Scope × Option Symbol) : Type 0 where
  well_formed : IsWellFormed r.0
  extends : Extends (function_upvalues ss) (function_upvalues r.0)
  answer : AnswerOk r.0 r.1

is_upvalue_of_global : (g : Storage) → is_global g ≡ true → is_upvalue g ≡ false
is_upvalue_of_global g h = ground arith

function_upvalues_at :
    (t : Scope) (ts : List Scope)
    → is_function_scope t.kind ≡ true
    → function_upvalues (t ∷ ts) ≡ t.upvalues
unfolding function_upvalues
function_upvalues_at t ts e = rw e

function_upvalues_past :
    (t : Scope) (ts : List Scope)
    → is_function_scope t.kind ≡ false
    → function_upvalues (t ∷ ts) ≡ function_upvalues ts
unfolding function_upvalues
function_upvalues_past t ts e = rw e

AnswerOk-at :
    (f : Scope) (ss : List Scope) (n : String) (o : Option Symbol)
    → is_function_scope f.kind ≡ true
    → FoundOk n f o
    → AnswerOk (f ∷ ss) o
AnswerOk-at f ss n none k h = tt
AnswerOk-at f ss n (some x) k (inl g) = inl (is_upvalue_of_global x.scope g)
AnswerOk-at f ss n (some x) k (inr (up, name, index, there)) =
    inr (rw (function_upvalues_at f ss k) index)

AnswerOk-past :
    (s : Scope) (ss : List Scope) (o : Option Symbol)
    → is_function_scope s.kind ≡ false
    → AnswerOk ss o
    → AnswerOk (s ∷ ss) o
AnswerOk-past s ss none k h = tt
AnswerOk-past s ss (some x) k h = rw (function_upvalues_past s ss k) h

resolve_upvalue-ChainOk :
    (n : String) (ss : List Scope) → IsWellFormed ss → ChainOk ss (resolve_upvalue n ss)
unfolding resolve_upvalue
resolve_upvalue-ChainOk n [] wf = record {
  well_formed = tt;
  extends = ([], sym (append-nil _));
  answer = tt;
}
resolve_upvalue-ChainOk n (s ∷ ss) wf = elim (Bool-cases (is_function_scope s.kind)) [
  | inl k ↦
      let r = resolve_upvalue_in n s ss in
      let ok = resolve_upvalue_in-IsResolved n s ss k wf in
      let k' : is_function_scope r.func.kind ≡ true = ap is_function_scope ok.kind ∙ k in
      rw k (record {
        well_formed = ok.well_formed;
        extends =
            rw (function_upvalues_at s ss k, function_upvalues_at r.func r.outer k') ok.extends;
        answer = AnswerOk-at r.func r.outer n r.found k' ok.found_ok;
      })
  | inr k ↦
      let ok = resolve_upvalue-ChainOk n ss wf.2 in
      rw k (record {
        well_formed = (wf.0, All-Captures-Extends _ _ s.upvalues ok.extends wf.1, ok.well_formed);
        extends =
            rw (function_upvalues_past s ss k, function_upvalues_past s (resolve_upvalue n ss).0 k)
              ok.extends;
        answer = AnswerOk-past s (resolve_upvalue n ss).0 (resolve_upvalue n ss).1 k ok.answer;
      })
]

is_function_of_block : (k : Kind) → is_block k ≡ true → is_function_scope k ≡ false
is_function_of_block k h = ground arith

in_scope-AnswerOk :
    (s : Scope) (ss : List Scope) (n : String) (x : Symbol)
    → IsIndexed s
    → lookup n s.symbols ≡ some x
    → AnswerOk (s ∷ ss) (some x)
in_scope-AnswerOk s ss n x ok e = elim (Bool-cases (is_upvalue x.scope)) [
  | inr u ↦ inl u
  | inl u ↦ inr (elim ok.plain [
    | inl k ↦ rw (function_upvalues_at s ss k) (ok.indexed n x e u)
    | inr none_here ↦
        absurd (nothing_at (subst (λ us. Indexed us x) none_here (ok.indexed n x e u)))
  ])
]
  where
    nothing_at : Indexed [] x → ⊥
    nothing_at (i, u, e₁, e₂, e₃) = cc

resolve_local-AnswerOk :
    (n : String) (ss : List Scope) → IsWellFormed ss → AnswerOk ss (resolve_local n ss)
unfolding resolve_local
resolve_local-AnswerOk n [] wf = tt
resolve_local-AnswerOk n (s ∷ ss) wf =
    by_lookup (Option-cases (lookup n s.symbols)) (Bool-cases (is_block s.kind))
      (resolve_local-AnswerOk n ss wf.2)
  where
    by_lookup :
        (lookup n s.symbols ≡ none) ⊎ ((x : Symbol) × (lookup n s.symbols ≡ some x))
        → (is_block s.kind ≡ true) ⊎ (is_block s.kind ≡ false)
        → AnswerOk ss (resolve_local n ss)
        → AnswerOk (s ∷ ss) (resolve_local n (s ∷ ss))
    by_lookup (inr (x, e)) b ih = rw (e, resolve_local) (in_scope-AnswerOk s ss n x wf.0 e)
    by_lookup (inl e) (inl b) ih =
        rw (e, resolve_local) (rw b (AnswerOk-past s ss _ (is_function_of_block s.kind b) ih))
    by_lookup (inl e) (inr b) ih = rw (e, resolve_local) (rw b tt)

resolve_chain-ChainOk :
    (n : String) (ss : List Scope) → IsWellFormed ss → ChainOk ss (resolve_chain n ss)
unfolding resolve_chain
resolve_chain-ChainOk n ss wf = elim (Option-cases (resolve_local n ss)) [
  | inl e ↦ rw (e, resolve_chain) (resolve_upvalue-ChainOk n ss wf)
  | inr (x, e) ↦
      rw (e, resolve_chain)
        (record {
          well_formed = wf;
          extends = ([], sym (append-nil _));
          answer = subst (AnswerOk ss) e (resolve_local-AnswerOk n ss wf);
        })
]

-- Resolving a name keeps the chain of scopes well formed (every upvalue symbol is at its index in
-- the upvalues of its function, and every upvalue that is not a local of the enclosing function is
-- an upvalue of it at the recorded index), only appends to the upvalues of the current function,
-- and an answer that is an upvalue is at its index there.
pub resolve-IsWellFormed :
    (n : String) (t : SymbolTable)
    → IsWellFormed t.scopes
    → IsWellFormed (resolve n t).0.scopes
      × Extends (function_upvalues t.scopes) (function_upvalues (resolve n t).0.scopes)
      × AnswerOk (resolve n t).0.scopes (resolve n t).1
unfolding resolve
resolve-IsWellFormed n t wf =
    let ok = resolve_chain-ChainOk n t.scopes wf in (ok.well_formed, ok.extends, ok.answer)

slot_taken-IsIndexed : (n : String) (s : Scope) → IsIndexed s → IsIndexed (slot_taken n s)
slot_taken-IsIndexed n s ok = record { named = ok.named; indexed = ok.indexed; plain = ok.plain }

take_slot-IsWellFormed :
    (n : String) (ss : List Scope)
    → IsWellFormed ss
    → IsWellFormed (take_slot n ss) × (function_upvalues (take_slot n ss) ≡ function_upvalues ss)
unfolding take_slot
take_slot-IsWellFormed n [] wf = (tt, refl)
take_slot-IsWellFormed n (s ∷ ss) wf = elim (Bool-cases (is_function_scope s.kind)) [
  | inl k ↦ rw k (
    (slot_taken-IsIndexed n s wf.0, wf.1, wf.2),
    function_upvalues_at (slot_taken n s) ss k ∙ sym (function_upvalues_at s ss k),
  )
  | inr k ↦
      let (wf', same) = take_slot-IsWellFormed n ss wf.2 in
      rw k (
        (wf.0, rw same wf.1, wf'),
        function_upvalues_past s _ k ∙ same ∙ sym (function_upvalues_past s ss k),
      )
]

local-IsWellFormed :
    (n : String) (f : Bool) (i : Option ℕ) (s : Scope) (ss : List Scope)
    → IsWellFormed (s ∷ ss)
    → IsWellFormed (take_slot n (put_symbol (symbol_of n local i f) s ∷ ss))
local-IsWellFormed n f i s ss wf =
    (take_slot-IsWellFormed n (put_symbol (symbol_of n local i f) s ∷ ss)
      (put_symbol-IsIndexed s (symbol_of n local i f) wf.0 (inl refl), wf.1, wf.2)).0

define_in-IsWellFormed :
    (n : String) (f : Bool) (ss : List Scope) → IsWellFormed ss → IsWellFormed (define_in n f ss).0
define_in-IsWellFormed n f [] wf = tt
define_in-IsWellFormed n f (s ∷ ss) wf = by_kind s.kind refl
  where
    by_kind : (k : Kind) → s.kind ≡ k → IsWellFormed (define_in n f (s ∷ ss)).0
    by_kind module_scope e =
        rw (e, define_in)
          (put_symbol-IsIndexed s (symbol_of n global none f) wf.0 (inl refl), wf.1, wf.2)
    by_kind function_scope e =
        rw (e, define_in) (local-IsWellFormed n f (next_slot (s ∷ ss)) s ss wf)
    by_kind block_scope e = rw (e, define_in) (local-IsWellFormed n f (next_slot (s ∷ ss)) s ss wf)

-- Defining a name, entering a scope and leaving one keep the chain well formed.
pub scopes-IsWellFormed :
    (n : String) (f : Bool) (k : Kind) (t : SymbolTable)
    → IsWellFormed t.scopes
    → IsWellFormed (define n f t).0.scopes
      × IsWellFormed (enter_scope k t).scopes
      × IsWellFormed (exit_scope t).scopes
unfolding define enter_scope exit_scope leave new_scope lookup
scopes-IsWellFormed n f k t wf = (
  define_in-IsWellFormed n f t.scopes wf,
  (record { named = λ m x e. cc; indexed = λ m x e u. cc; plain = inr refl }, tt, wf),
  left t.scopes wf,
)
  where
    left : (ss : List Scope) → IsWellFormed ss → IsWellFormed (leave ss)
    left [] h = h
    left (s ∷ []) h = h
    left (s ∷ p ∷ ps) h = h.2
