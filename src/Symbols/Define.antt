-- ===== src/Symbols/Define.antt =====
-- What a definition resolves to, and the slots that definitions take.
use Prim.Native.String.{String}
use nodus.Prelude.{
  ℕ, ◌+◌, ◌≡◌, ◌⊎◌, inl, inr, refl, sym, ap, ◌∙◌, Bool, true, Option, none, some, List, [], ◌∷◌,
  arith, Bool-cases,
}
use nodus.Prelude.Dict.{lookup, lookup-insert_self}
use nodus.Symbols.{
  Kind, global, local, module_scope, function_scope, block_scope, Symbol, Scope, SymbolTable,
  is_function_scope, is_block, resolve_local, resolve_chain, resolve, define, define_in, put_symbol,
  slot_taken, take_slot, next_slot, symbol_of, frame_size,
}

local_at :
    (n : String) (x : Symbol) (s : Scope) (ss : List Scope)
    → lookup n s.symbols ≡ some x
    → resolve_local n (s ∷ ss) ≡ some x
unfolding resolve_local
local_at n x s ss e = rw (e, resolve_local)

local_of_take :
    (n : String) (x : Symbol) (s : Scope) (ss : List Scope)
    → lookup n s.symbols ≡ some x
    → resolve_local n (take_slot n (s ∷ ss)) ≡ some x
unfolding take_slot
local_of_take n x s ss e = elim (Bool-cases (is_function_scope s.kind)) [
  | inl k ↦ rw k (local_at n x (slot_taken n s) ss e)
  | inr k ↦ rw k (local_at n x s (take_slot n ss) e)
]

chain_local :
    (n : String) (ss : List Scope) (x : Symbol)
    → resolve_local n ss ≡ some x
    → resolve_chain n ss ≡ (ss, some x)
unfolding resolve_chain
chain_local n ss x e = rw (e, resolve_chain)

define_in-local :
    (n : String) (f : Bool) (s : Scope) (ss : List Scope)
    → resolve_local n (define_in n f (s ∷ ss)).0 ≡ some (define_in n f (s ∷ ss)).1
define_in-local n f s ss = by_kind s.kind refl
  where
    placed :
        (i : Option ℕ)
        → resolve_local n (take_slot n (put_symbol (symbol_of n local i f) s ∷ ss))
          ≡ some (symbol_of n local i f)
    placed i =
        local_of_take n (symbol_of n local i f) (put_symbol (symbol_of n local i f) s) ss
          (lookup-insert_self n (symbol_of n local i f) s.symbols)

    by_kind :
        (k : Kind)
        → s.kind ≡ k
        → resolve_local n (define_in n f (s ∷ ss)).0 ≡ some (define_in n f (s ∷ ss)).1
    by_kind module_scope e =
        rw (e, define_in)
          (local_at n (symbol_of n global none f) (put_symbol (symbol_of n global none f) s) ss
            (lookup-insert_self n (symbol_of n global none f) s.symbols))
    by_kind function_scope e = rw (e, define_in) (placed (next_slot (s ∷ ss)))
    by_kind block_scope e = rw (e, define_in) (placed (next_slot (s ∷ ss)))

-- After a definition, in whatever scope, its name resolves to the symbol that was defined, which
-- shadows every other of that name, and resolving it captures nothing.
pub define-resolve :
    (n : String) (f : Bool) (s : Scope) (ss : List Scope) (t : SymbolTable)
    → t.scopes ≡ s ∷ ss
    → ((resolve n (define n f t).0).1 ≡ some (define n f t).1)
      × ((resolve n (define n f t).0).0.scopes ≡ (define n f t).0.scopes)
unfolding resolve define
define-resolve n f s ss t e =
    let found =
      chain_local n (define_in n f t.scopes).0 (define_in n f t.scopes).1
        (rw e (define_in-local n f s ss)) in
    (
      ap (λ (r : List Scope × Option Symbol). r.1) found,
      ap (λ (r : List Scope × Option Symbol). r.0) found,
    )

next_slot-take_slot :
    (n : String) (ss : List Scope) (k : ℕ)
    → next_slot ss ≡ some k
    → next_slot (take_slot n ss) ≡ some (k + 1)
unfolding next_slot take_slot
next_slot-take_slot n [] k e = cc
next_slot-take_slot n (s ∷ ss) k e = elim (Bool-cases (is_function_scope s.kind)) [
  | inl b ↦ rw b (rw b (ground arith))
  | inr b ↦ rw b (rw b (next_slot-take_slot n ss k (rw b at e)))
]

next_slot-put_symbol :
    (x : Symbol) (s : Scope) (ss : List Scope)
    → next_slot (put_symbol x s ∷ ss) ≡ next_slot (s ∷ ss)
unfolding next_slot
next_slot-put_symbol x s ss = refl

-- What `define` does in a scope that is no module's.
abbrev InSlot : String → Bool → List Scope → ℕ → Type 0
InSlot n f ss k =
    ((define_in n f ss).1.index ≡ some k)
    × ((define_in n f ss).1.scope ≡ local)
    × (next_slot (define_in n f ss).0 ≡ some (k + 1))

define_in-InSlot :
    (n : String) (f : Bool) (s : Scope) (ss : List Scope) (k : ℕ)
    → (is_block s.kind ≡ true) ⊎ (is_function_scope s.kind ≡ true)
    → next_slot (s ∷ ss) ≡ some k
    → InSlot n f (s ∷ ss) k
define_in-InSlot n f s ss k c slot = by_kind s.kind refl
  where
    taken :
        (i : Option ℕ)
        → next_slot (take_slot n (put_symbol (symbol_of n local i f) s ∷ ss)) ≡ some (k + 1)
    taken i =
        next_slot-take_slot n (put_symbol (symbol_of n local i f) s ∷ ss) k
          (next_slot-put_symbol (symbol_of n local i f) s ss ∙ slot)

    by_kind : (j : Kind) → s.kind ≡ j → InSlot n f (s ∷ ss) k
    by_kind module_scope e = absurd (ground arith)
    by_kind function_scope e = rw (e, define_in) (slot, refl, taken (next_slot (s ∷ ss)))
    by_kind block_scope e = rw (e, define_in) (slot, refl, taken (next_slot (s ∷ ss)))

frame_size-next_slot : (t : SymbolTable) (k : ℕ) → next_slot t.scopes ≡ some k → frame_size t ≡ k
unfolding frame_size
frame_size-next_slot t k e = rw (e, frame_size)

-- Inside a function a definition takes the slot at the end of the frame, and the frame grows by
-- that one slot.
pub define-slot :
    (n : String) (f : Bool) (s : Scope) (ss : List Scope) (t : SymbolTable) (k : ℕ)
    → t.scopes ≡ s ∷ ss
    → (is_block s.kind ≡ true) ⊎ (is_function_scope s.kind ≡ true)
    → next_slot t.scopes ≡ some k
    → ((define n f t).1.index ≡ some k)
      × ((define n f t).1.scope ≡ local)
      × (frame_size t ≡ k)
      × (frame_size (define n f t).0 ≡ k + 1)
unfolding define
define-slot n f s ss t k e c slot =
    let found : InSlot n f t.scopes k =
      rw e (define_in-InSlot n f s ss k c (ap next_slot (sym e) ∙ slot)) in
    (found.0, found.1, frame_size-next_slot t k slot, frame_size-next_slot _ (k + 1) found.2)
