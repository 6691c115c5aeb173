-- ===== src/Symbols/Scopes.antt =====
-- Well-formed chains of scopes, and how a capture keeps one well formed.
use Prim.Native.String.{String}
use text.Mathlib.Text.{◌==◌ as str_eq}
use nodus.Prelude.{
  ℕ, ◌≡◌, ◌⊎◌, inl, inr, refl, sym, ap, ◌∙◌, Bool, true, false, Option, none, some, List, [], ◌∷◌,
  ◌++◌, length, get_elem?, get_elem?-append, get_elem?-concat, get_elem?-lt, All, All-append, arith,
  eq_iff, Bool-cases, Option-cases,
}
use nodus.Prelude.Dict.{lookup, insert, lookup-insert, lookup-insert_self}
use mathlib.Core.Path.{subst}
use mathlib.Core.List.{append-nil}
use nodus.Symbols.{
  upvalue, Symbol, Upvalue, Scope, is_function_scope, is_upvalue, put_symbol, symbol_of, captured,
  capture, add_upvalue, function_upvalues,
}

-- The symbol is the upvalue at its index in the list.
abbrev pub Indexed : List Upvalue → Symbol → Type 0
Indexed us x =
    (i : ℕ) × (u : Upvalue) × (x.index ≡ some i) × (get_elem? us i ≡ some u) × (u.name ≡ x.name)

-- The captured variable lives in the frame of the enclosing function, or is an upvalue of it at
-- the recorded index.
abbrev pub Captures : List Upvalue → Upvalue → Type 0
Captures outer u =
    (u.is_local ≡ true)
    ⊎ ((i : ℕ) × (v : Upvalue) × (u.index ≡ some i)
        × (get_elem? outer i ≡ some v)
        × (v.name ≡ u.name))

-- Symbols stand under their names, those that are upvalues are indexed, and only the scope of a
-- function has upvalues.
pub record IsIndexed (s : Scope) : Type 0 where
  pub named : (n : String) (x : Symbol) → lookup n s.symbols ≡ some x → x.name ≡ n
  pub indexed :
      (n : String) (x : Symbol)
      → lookup n s.symbols ≡ some x
      → is_upvalue x.scope ≡ true
      → Indexed s.upvalues x
  pub plain : (is_function_scope s.kind ≡ true) ⊎ (s.upvalues ≡ [])

-- Every scope of the chain is indexed, and what it captures is there in the enclosing function.
abbrev pub IsWellFormed : List Scope → Type 0
IsWellFormed [] = Unit
IsWellFormed (s ∷ ss) =
    IsIndexed s × All (Captures (function_upvalues ss)) s.upvalues × IsWellFormed ss

Indexed-append : (us vs : List Upvalue) (x : Symbol) → Indexed us x → Indexed (us ++ vs) x
Indexed-append us vs x (i, u, e, at_i, n) =
    (i, u, e, get_elem?-append us vs i (get_elem?-lt us i at_i) ∙ at_i, n)

-- The upvalues of a function only grow at the end.
abbrev pub Extends : List Upvalue → List Upvalue → Type 0
Extends us vs = (more : List Upvalue) × (vs ≡ us ++ more)

Captures-Extends :
    (us vs : List Upvalue) (u : Upvalue) → Extends us vs → Captures us u → Captures vs u
Captures-Extends us vs u (more, e) (inl l) = inl l
Captures-Extends us vs u (more, e) (inr (i, v, x, at_i, n)) =
    inr (i, v, x, rw e (get_elem?-append us more i (get_elem?-lt us i at_i) ∙ at_i), n)

pub All-Captures-Extends :
    (us vs : List Upvalue) (xs : List Upvalue)
    → Extends us vs
    → All (Captures us) xs
    → All (Captures vs) xs
All-Captures-Extends us vs [] e a = tt
All-Captures-Extends us vs (x ∷ xs) e a =
    (Captures-Extends us vs x e a.0, All-Captures-Extends us vs xs e a.1)

-- A symbol is put under its name; an upvalue must be indexed.
pub put_symbol-IsIndexed :
    (s : Scope) (x : Symbol)
    → IsIndexed s
    → (is_upvalue x.scope ≡ false) ⊎ Indexed s.upvalues x
    → IsIndexed (put_symbol x s)
put_symbol-IsIndexed s x ok fits = record {
  named = λ n y e. elim (Bool-cases (str_eq x.name n)) [
    | inl same ↦ ground (arith, lookup-insert x.name n x s.symbols, eq_iff x.name n)
    | inr differ ↦ ok.named n y (ground (arith, lookup-insert x.name n x s.symbols))
  ];
  indexed = λ n y e up. elim (Bool-cases (str_eq x.name n)) [
    | inl same ↦ at_self n y e up same fits
    | inr differ ↦ ok.indexed n y (ground (arith, lookup-insert x.name n x s.symbols)) up
  ];
  plain = ok.plain;
}
  where
    at_self :
        (n : String) (y : Symbol)
        → lookup n (insert x.name x s.symbols) ≡ some y
        → is_upvalue y.scope ≡ true
        → str_eq x.name n ≡ true
        → (is_upvalue x.scope ≡ false) ⊎ Indexed s.upvalues x
        → Indexed s.upvalues y
    at_self n y e up same f =
        let e' : x ≡ y = ground (arith, lookup-insert x.name n x s.symbols) in
        elim f [
          | inl l ↦ absurd (ground (arith, l, up, ap (λ (z : Symbol). is_upvalue z.scope) e'))
          | inr i ↦ subst (Indexed s.upvalues) e' i
        ]

-- What `_add_upvalue` makes of the function scope `f` and the symbol `x`.
pub record IsCapture (outer : List Upvalue) (f : Scope) (x : Symbol) (r : Scope × Symbol)
    : Type 0 where
  pub scope_ok : IsIndexed r.0
  pub kind : r.0.kind ≡ f.kind
  pub extends : Extends f.upvalues r.0.upvalues
  pub captures : All (Captures outer) r.0.upvalues
  pub name : r.1.name ≡ x.name
  pub is_up : is_upvalue r.1.scope ≡ true
  pub indexed : Indexed r.0.upvalues r.1
  pub recorded : lookup x.name r.0.symbols ≡ some r.1

capture-IsCapture :
    (outer : List Upvalue) (f : Scope) (x : Symbol) (b : Bool)
    → is_function_scope f.kind ≡ true
    → IsIndexed f
    → All (Captures outer) f.upvalues
    → Captures outer (record { name = x.name; is_local = b; index = x.index })
    → IsCapture outer f x (capture f x b)
capture-IsCapture outer f x b k ok caps fits = record {
  scope_ok = put_symbol-IsIndexed grown up grown_ok (inr here);
  kind = refl;
  extends = (new ∷ [], refl);
  captures = All-append _ f.upvalues (new ∷ []) caps (fits, tt);
  name = refl;
  is_up = refl;
  indexed = here;
  recorded = lookup-insert_self x.name up f.symbols;
}
  where
    new : Upvalue
    new = record { name = x.name; is_local = b; index = x.index }

    grown : Scope
    grown = record f { upvalues = f.upvalues ++ new ∷ [] }

    up : Symbol
    up = symbol_of x.name upvalue (some (length f.upvalues)) false

    here : Indexed (f.upvalues ++ new ∷ []) up
    here = (length f.upvalues, new, refl, get_elem?-concat f.upvalues new, refl)

    grown_ok : IsIndexed grown
    grown_ok = record {
      named = ok.named;
      indexed = λ n y e u. Indexed-append f.upvalues (new ∷ []) y (ok.indexed n y e u);
      plain = inl k;
    }

captured-some :
    (o : Option Symbol) (y : Symbol)
    → captured o ≡ some y
    → (o ≡ some y) × (is_upvalue y.scope ≡ true)
captured-some none y e = cc
captured-some (some x) y e = ground arith

pub add_upvalue-IsCapture :
    (outer : List Upvalue) (f : Scope) (x : Symbol) (b : Bool)
    → is_function_scope f.kind ≡ true
    → IsIndexed f
    → All (Captures outer) f.upvalues
    → Captures outer (record { name = x.name; is_local = b; index = x.index })
    → IsCapture outer f x (add_upvalue f x b)
unfolding add_upvalue
add_upvalue-IsCapture outer f x b k ok caps fits =
    elim (Option-cases (captured (lookup x.name f.symbols))) [
      | inl e ↦ rw (e, add_upvalue) (capture-IsCapture outer f x b k ok caps fits)
      | inr (y, e) ↦
          let (there, up) = captured-some (lookup x.name f.symbols) y e in
          rw (e, add_upvalue)
            (record {
              scope_ok = ok;
              kind = refl;
              extends = ([], sym (append-nil f.upvalues));
              captures = caps;
              name = ok.named x.name y there;
              is_up = up;
              indexed = ok.indexed x.name y there up;
              recorded = there;
            })
    ]
