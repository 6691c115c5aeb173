-- ===== src/Symbols/Stable.antt =====
-- A name keeps the answer that it was given, and a definition is what its name then resolves to.
use Prim.Native.String.{String}
use mathlib.Core.Path.{subst, ap₂}
use nodus.Prelude.{
  ◌≡◌, ◌⊎◌, inl, inr, refl, sym, ap, ◌∙◌, Bool, true, false, Option, none, some, List, [], ◌∷◌,
  arith, Bool-cases, Option-cases,
}
use nodus.Prelude.Dict.{lookup}
use nodus.Symbols.{
  Symbol, Scope, SymbolTable, Resolved, is_function_scope, is_block, is_upvalue, is_global,
  add_upvalue, added, captured, has_function, capture_from, capture_outer, resolve_upvalue_in,
  resolve_upvalue, resolve_local, resolve_chain, resolve,
}
use nodus.Symbols.Scopes.{IsWellFormed}
use nodus.Symbols.Resolve.{FoundOk, resolve_upvalue_in-IsResolved}

-- The name resolves to no upvalue.
abbrev Direct : Option Symbol → Type 0
Direct none = Unit
Direct (some x) = is_upvalue x.scope ≡ false

add_upvalue-is_upvalue :
    (f : Scope) (x : Symbol) (b : Bool) → is_upvalue (add_upvalue f x b).1.scope ≡ true
unfolding add_upvalue
add_upvalue-is_upvalue f x b = by_capture (captured (lookup x.name f.symbols)) refl
  where
    by_capture :
        (o : Option Symbol)
        → captured (lookup x.name f.symbols) ≡ o
        → is_upvalue (add_upvalue f x b).1.scope ≡ true
    by_capture none e = rw (e, add_upvalue)
    by_capture (some y) e = rw (e, add_upvalue) (up_of (lookup x.name f.symbols) y e)
      where
        up_of : (o : Option Symbol) (z : Symbol) → captured o ≡ some z → is_upvalue z.scope ≡ true
        up_of none z h = cc
        up_of (some a) z h = ground arith

-- Without a capture nothing changes.
abbrev Same : Scope → List Scope → Resolved → Type 0
Same f ss r = (r.func ≡ f) × (r.outer ≡ ss)

added_is_not-Direct :
    (f g : Scope) (x : Symbol) (b : Bool) (ss os : List Scope)
    → Direct (added (add_upvalue f x b) os).found
    → Same g ss (added (add_upvalue f x b) os)
added_is_not-Direct f g x b ss os d = absurd (ground (arith, add_upvalue-is_upvalue f x b, d))

from-Same :
    (f s : Scope) (ss : List Scope) (x : Symbol)
    → Direct (capture_from f s ss x).found
    → Same f (s ∷ ss) (capture_from f s ss x)
from-Same f s ss x = elim (Bool-cases (is_global x.scope)) [
  | inl g ↦ rw g (λ d. (refl, refl))
  | inr g ↦ rw g (added_is_not-Direct f f x _ (s ∷ ss) (s ∷ ss))
]

outer-Same :
    (f s : Scope) (ss : List Scope) (r : Resolved)
    → (Direct r.found → Same s ss r)
    → Direct (capture_outer f r).found
    → Same f (s ∷ ss) (capture_outer f r)
outer-Same f s ss r ih = by_found r.found refl
  where
    by_found :
        (o : Option Symbol)
        → r.found ≡ o
        → Direct (capture_outer f r).found
        → Same f (s ∷ ss) (capture_outer f r)
    by_found none e = rw (e, capture_outer) (λ d. (refl, ap₂ ◌∷◌ (ih (rw e tt)).0 (ih (rw e tt)).1))
    by_found (some x) e = elim (Bool-cases (is_global x.scope)) [
      | inl g ↦ rw (e, capture_outer) (rw g (λ d. (refl, ap₂ ◌∷◌ (ih (rw e d)).0 (ih (rw e d)).1)))
      | inr g ↦
          rw (e, capture_outer) (rw g (added_is_not-Direct f f x false (s ∷ ss) (r.func ∷ r.outer)))
    ]

resolve_upvalue_in-Same :
    (n : String) (f : Scope) (ss : List Scope)
    → Direct (resolve_upvalue_in n f ss).found
    → Same f ss (resolve_upvalue_in n f ss)
unfolding resolve_upvalue_in
resolve_upvalue_in-Same n f [] = λ d. (refl, refl)
resolve_upvalue_in-Same n f (s ∷ ss) =
    by_scope (Bool-cases (has_function (s ∷ ss))) (Option-cases (lookup n s.symbols))
      (Bool-cases (is_function_scope s.kind)) (resolve_upvalue_in-Same n s ss)
      (resolve_upvalue_in-Same n f ss)
  where
    by_scope :
        (has_function (s ∷ ss) ≡ true) ⊎ (has_function (s ∷ ss) ≡ false)
        → (lookup n s.symbols ≡ none) ⊎ ((x : Symbol) × (lookup n s.symbols ≡ some x))
        → (is_function_scope s.kind ≡ true) ⊎ (is_function_scope s.kind ≡ false)
        → (Direct (resolve_upvalue_in n s ss).found → Same s ss (resolve_upvalue_in n s ss))
        → (Direct (resolve_upvalue_in n f ss).found → Same f ss (resolve_upvalue_in n f ss))
        → Direct (resolve_upvalue_in n f (s ∷ ss)).found
        → Same f (s ∷ ss) (resolve_upvalue_in n f (s ∷ ss))
    by_scope (inr h) o k ih₁ ih₂ = rw (h, resolve_upvalue_in) (λ d. (refl, refl))
    by_scope (inl h) (inr (x, e)) k ih₁ ih₂ =
        rw (h, resolve_upvalue_in) (rw (e, resolve_upvalue_in) (from-Same f s ss x))
    by_scope (inl h) (inl e) (inl k) ih₁ ih₂ =
        rw (h, resolve_upvalue_in)
          (rw (e, resolve_upvalue_in) (rw k (outer-Same f s ss (resolve_upvalue_in n s ss) ih₁)))
    by_scope (inl h) (inl e) (inr k) ih₁ ih₂ =
        rw (h, resolve_upvalue_in)
          (rw (e, resolve_upvalue_in)
            (rw k (λ d. ((ih₂ d).0, ap (λ (os : List Scope). s ∷ os) (ih₂ d).1))))

resolve_upvalue-Same :
    (n : String) (ss : List Scope) → Direct (resolve_upvalue n ss).1 → (resolve_upvalue n ss).0 ≡ ss
unfolding resolve_upvalue
resolve_upvalue-Same n [] = λ d. refl
resolve_upvalue-Same n (s ∷ ss) = elim (Bool-cases (is_function_scope s.kind)) [
  | inl k ↦
      rw k (λ d. ap₂ ◌∷◌ (resolve_upvalue_in-Same n s ss d).0 (resolve_upvalue_in-Same n s ss d).1)
  | inr k ↦ rw k (λ d. ap (λ (os : List Scope). s ∷ os) (resolve_upvalue-Same n ss d))
]

-- The scope of a module has no parent: `enter_scope` is only called for functions and blocks.
abbrev pub IsNested : List Scope → Type 0
IsNested [] = Unit
IsNested (s ∷ ss) =
    ((is_block s.kind ≡ true) ⊎ (is_function_scope s.kind ≡ true) ⊎ (ss ≡ [])) × IsNested ss

local_in :
    (n : String) (f : Scope) (ss : List Scope) (x : Symbol)
    → FoundOk n f (some x)
    → is_upvalue x.scope ≡ true
    → resolve_local n (f ∷ ss) ≡ some x
unfolding resolve_local
local_in n f ss x (inl g) u = absurd (ground arith)
local_in n f ss x (inr (up, name, index, there)) u = rw (there, resolve_local)

local_past :
    (n : String) (s : Scope) (ss : List Scope)
    → resolve_local n (s ∷ ss) ≡ none
    → is_block s.kind ≡ true
    → (lookup n s.symbols ≡ none) × (resolve_local n ss ≡ none)
unfolding resolve_local
local_past n s ss l b = ground arith

local_skip :
    (n : String) (s : Scope) (ss : List Scope)
    → lookup n s.symbols ≡ none
    → is_block s.kind ≡ true
    → resolve_local n (s ∷ ss) ≡ resolve_local n ss
unfolding resolve_local
local_skip n s ss e b = ground arith

nothing_above :
    (n : String) (ss : List Scope) (x : Symbol) → ss ≡ [] → (resolve_upvalue n ss).1 ≡ some x → ⊥
unfolding resolve_upvalue
nothing_above n ss x e h = cc (subst (λ (l : List Scope). (resolve_upvalue n l).1 ≡ some x) e h)

-- When a capture is made, the name is found without one the next time.
resolve_upvalue-local :
    (n : String) (ss : List Scope) (x : Symbol)
    → IsWellFormed ss
    → IsNested ss
    → resolve_local n ss ≡ none
    → (resolve_upvalue n ss).1 ≡ some x
    → is_upvalue x.scope ≡ true
    → resolve_local n (resolve_upvalue n ss).0 ≡ some x
unfolding resolve_upvalue
resolve_upvalue-local n [] x wf nested l e u = cc
resolve_upvalue-local n (s ∷ ss) x wf nested l e u =
    by_kind (Bool-cases (is_function_scope s.kind)) nested.0
      (resolve_upvalue-local n ss x wf.2 nested.1)
  where
    by_kind :
        (is_function_scope s.kind ≡ true) ⊎ (is_function_scope s.kind ≡ false)
        → (is_block s.kind ≡ true) ⊎ (is_function_scope s.kind ≡ true) ⊎ (ss ≡ [])
        → (resolve_local n ss ≡ none
            → (resolve_upvalue n ss).1 ≡ some x
            → is_upvalue x.scope ≡ true
            → resolve_local n (resolve_upvalue n ss).0 ≡ some x)
        → resolve_local n (resolve_upvalue n (s ∷ ss)).0 ≡ some x
    by_kind (inl k) c ih =
        let found : (resolve_upvalue_in n s ss).found ≡ some x = rw k at e in
        let ok = resolve_upvalue_in-IsResolved n s ss k wf in
        rw k (
          local_in n (resolve_upvalue_in n s ss).func (resolve_upvalue_in n s ss).outer x
            (subst (FoundOk n (resolve_upvalue_in n s ss).func) found ok.found_ok) u)
    by_kind (inr k) (inl b) ih =
        let found : (resolve_upvalue n ss).1 ≡ some x = rw k at e in
        let (here, above) = local_past n s ss l b in
        rw k (local_skip n s (resolve_upvalue n ss).0 here b ∙ ih above found u)
    by_kind (inr k) (inr (inl k')) ih = absurd (ground arith)
    by_kind (inr k) (inr (inr top)) ih =
        let found : (resolve_upvalue n ss).1 ≡ some x = rw k at e in
        absurd (nothing_above n ss x top found)

chain_up :
    (n : String) (ss : List Scope)
    → resolve_local n ss ≡ none
    → resolve_chain n ss ≡ resolve_upvalue n ss
unfolding resolve_chain
chain_up n ss e = rw (e, resolve_chain)

chain_local :
    (n : String) (ss : List Scope) (x : Symbol)
    → resolve_local n ss ≡ some x
    → resolve_chain n ss ≡ (ss, some x)
unfolding resolve_chain
chain_local n ss x e = rw (e, resolve_chain)

module _ (n : String) (ss : List Scope) (wf : IsWellFormed ss) (nested : IsNested ss) where
  stable_up :
      (o : Option Symbol)
      → (resolve_upvalue n ss).1 ≡ o
      → resolve_local n ss ≡ none
      → resolve_chain n (resolve_upvalue n ss).0 ≡ resolve_upvalue n ss
  stable_up none e l =
      ap (resolve_chain n) (resolve_upvalue-Same n ss (subst Direct (sym e) tt)) ∙ chain_up n ss l
  stable_up (some x) e l = elim (Bool-cases (is_upvalue x.scope)) [
    | inl u ↦
        chain_local n (resolve_upvalue n ss).0 x (resolve_upvalue-local n ss x wf nested l e u)
        ∙ ap (λ (o : Option Symbol). ((resolve_upvalue n ss).0, o)) (sym e)
    | inr u ↦
        ap (resolve_chain n) (resolve_upvalue-Same n ss (subst Direct (sym e) u)) ∙ chain_up n ss l
  ]

  chain-stable :
      (o : Option Symbol)
      → resolve_local n ss ≡ o
      → resolve_chain n (resolve_chain n ss).0 ≡ resolve_chain n ss
  chain-stable none e =
      ap (λ (r : List Scope × Option Symbol). resolve_chain n r.0) (chain_up n ss e)
      ∙ stable_up (resolve_upvalue n ss).1 refl e
      ∙ sym (chain_up n ss e)
  chain-stable (some x) e =
      ap (λ (r : List Scope × Option Symbol). resolve_chain n r.0) (chain_local n ss x e)

-- Resolving a name a second time gives the same answer and changes no scope: a variable is
-- captured once.
pub resolve-stable :
    (n : String) (t : SymbolTable)
    → IsWellFormed t.scopes
    → IsNested t.scopes
    → ((resolve n (resolve n t).0).1 ≡ (resolve n t).1)
      × ((resolve n (resolve n t).0).0.scopes ≡ (resolve n t).0.scopes)
unfolding resolve
resolve-stable n t wf nested =
    let same = chain-stable n t.scopes wf nested (resolve_local n t.scopes) refl in
    (
      ap (λ (r : List Scope × Option Symbol). r.1) same,
      ap (λ (r : List Scope × Option Symbol). r.0) same,
    )
