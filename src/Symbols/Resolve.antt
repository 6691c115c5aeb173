-- ===== src/Symbols/Resolve.antt =====
-- `resolve` keeps the chain of scopes well formed, and its answers refer to what is there.
use Prim.Native.String.{String}
use mathlib.Core.Path.{subst}
use mathlib.Core.List.{append-nil}
use nodus.Prelude.{
  ◌≡◌, ◌⊎◌, inl, inr, refl, sym, ap, ◌∙◌, Bool, true, false, not, Option, none, some, List, [], ◌∷◌,
  if◌then◌else◌, All, arith, Bool-cases, Option-cases,
}
use nodus.Prelude.Dict.{lookup}
use nodus.Symbols.{
  Storage, Symbol, Upvalue, Scope, Resolved, is_function_scope, is_upvalue, is_global, add_upvalue,
  added, function_upvalues, has_function, find_global, global_or, capture_from, capture_outer,
  keep_block, resolve_upvalue_in,
}
use nodus.Symbols.Scopes.{
  Indexed, Captures, IsIndexed, IsWellFormed, Extends, All-Captures-Extends, IsCapture,
  add_upvalue-IsCapture,
}

-- What is found is a global symbol, or an upvalue of the function under its name.
abbrev pub FoundOk : String → Scope → Option Symbol → Type 0
FoundOk n f none = Unit
FoundOk n f (some x) =
    (is_global x.scope ≡ true)
    ⊎ ((is_upvalue x.scope ≡ true)
        × (x.name ≡ n)
        × Indexed f.upvalues x
        × (lookup n f.symbols ≡ some x))

pub record IsResolved (n : String) (f : Scope) (ss : List Scope) (r : Resolved) : Type 0 where
  pub well_formed : IsWellFormed (r.func ∷ r.outer)
  pub kind : r.func.kind ≡ f.kind
  pub extends : Extends f.upvalues r.func.upvalues
  pub outer_extends : Extends (function_upvalues ss) (function_upvalues r.outer)
  pub found_ok : FoundOk n r.func r.found

Extends-refl : (us : List Upvalue) → Extends us us
Extends-refl us = ([], sym (append-nil us))

find_global-FoundOk : (n : String) (f : Scope) (ss : List Scope) → FoundOk n f (find_global n ss)
unfolding find_global
find_global-FoundOk n f [] = tt
find_global-FoundOk n f (s ∷ ss) =
    choose (lookup n s.symbols) (find_global n ss) (find_global-FoundOk n f ss)
  where
    choose : (o p : Option Symbol) → FoundOk n f p → FoundOk n f (global_or o p)
    choose none p h = h
    choose (some x) p h = elim (Bool-cases (is_global x.scope)) [
      | inl g ↦ rw g (inl g)
      | inr g ↦ rw g h
    ]

-- nothing changed
unchanged :
    (n : String) (f : Scope) (ss : List Scope) (o : Option Symbol)
    → IsWellFormed (f ∷ ss)
    → FoundOk n f o
    → IsResolved n f ss (record { func = f; outer = ss; found = o })
unchanged n f ss o wf ok = record {
  well_formed = wf;
  kind = refl;
  extends = Extends-refl f.upvalues;
  outer_extends = Extends-refl (function_upvalues ss);
  found_ok = ok;
}

-- a capture, with the enclosing scopes as they are now
captures :
    (n : String) (f : Scope) (ss outer : List Scope) (x : Symbol) (b : Bool)
    → is_function_scope f.kind ≡ true
    → IsIndexed f
    → All (Captures (function_upvalues outer)) f.upvalues
    → IsWellFormed outer
    → Extends (function_upvalues ss) (function_upvalues outer)
    → x.name ≡ n
    → Captures (function_upvalues outer) (record { name = x.name; is_local = b; index = x.index })
    → IsResolved n f ss (added (add_upvalue f x b) outer)
captures n f ss outer x b k ok caps wf ext name fits = record {
  well_formed = (c.scope_ok, c.captures, wf);
  kind = c.kind;
  extends = c.extends;
  outer_extends = ext;
  found_ok = inr (
    c.is_up,
    c.name ∙ name,
    c.indexed,
    ap (λ (k : String). lookup k (add_upvalue f x b).0.symbols) (sym name) ∙ c.recorded,
  );
}
  where
    c : IsCapture (function_upvalues outer) f x (add_upvalue f x b)
    c = add_upvalue-IsCapture (function_upvalues outer) f x b k ok caps fits

Captures-of_Indexed :
    (us : List Upvalue) (x : Symbol) (b : Bool)
    → Indexed us x
    → Captures us (record { name = x.name; is_local = b; index = x.index })
Captures-of_Indexed us x b (i, u, e, at_i, n) = inr (i, u, e, at_i, n)

is_global_of_upvalue : (g : Storage) → is_upvalue g ≡ true → is_global g ≡ false
is_global_of_upvalue g h = ground arith

module _ (n : String) (f s : Scope) (ss : List Scope) (kf : is_function_scope f.kind ≡ true)
    (wf : IsWellFormed (f ∷ s ∷ ss)) where
  function_upvalues_at :
      (t : Scope) (ts : List Scope)
      → is_function_scope t.kind ≡ true
      → function_upvalues (t ∷ ts) ≡ t.upvalues
  unfolding function_upvalues
  function_upvalues_at t ts e = rw e

  function_upvalues_past :
      (t : Scope) (ts : List Scope)
      → is_function_scope t.kind ≡ false
      → function_upvalues (t ∷ ts) ≡ function_upvalues ts
  unfolding function_upvalues
  function_upvalues_past t ts e = rw e

  from-IsResolved :
      (x : Symbol) → lookup n s.symbols ≡ some x → IsResolved n f (s ∷ ss) (capture_from f s ss x)
  from-IsResolved x e = elim (Bool-cases (is_global x.scope)) [
    | inl g ↦ rw g (unchanged n f (s ∷ ss) (some x) wf (inl g))
    | inr g ↦ rw g (
        captures n f (s ∷ ss) (s ∷ ss) x _ kf wf.0 wf.1 wf.2
          (Extends-refl (function_upvalues (s ∷ ss))) (wf.2.0.named n x e)
          (fits (Bool-cases (is_function_scope s.kind)) (Bool-cases (is_upvalue x.scope))))
  ]
    where
      mode : Bool
      mode = if is_function_scope s.kind then not (is_upvalue x.scope) else true

      fits :
          (is_function_scope s.kind ≡ true) ⊎ (is_function_scope s.kind ≡ false)
          → (is_upvalue x.scope ≡ true) ⊎ (is_upvalue x.scope ≡ false)
          → Captures
              (function_upvalues (s ∷ ss))
              (record { name = x.name; is_local = mode; index = x.index })
      fits (inl k) (inl u) =
          rw (function_upvalues_at s ss k)
            (Captures-of_Indexed s.upvalues x mode (wf.2.0.indexed n x e u))
      fits (inl k) (inr u) = inl (rw (k, u))
      fits (inr k) u = inl (rw k)

  outer-IsResolved :
      (r : Resolved)
      → is_function_scope s.kind ≡ true
      → IsResolved n s ss r
      → IsResolved n f (s ∷ ss) (capture_outer f r)
  outer-IsResolved r k ok = by_found r.found refl
    where
      ext : Extends (function_upvalues (s ∷ ss)) (function_upvalues (r.func ∷ r.outer))
      ext =
          rw
            (
              function_upvalues_at s ss k,
              function_upvalues_at r.func r.outer (ap is_function_scope ok.kind ∙ k),
            )
            ok.extends

      caps : All (Captures (function_upvalues (r.func ∷ r.outer))) f.upvalues
      caps = All-Captures-Extends _ _ f.upvalues ext wf.1

      plain :
          (o : Option Symbol)
          → FoundOk n f o
          → IsResolved n f (s ∷ ss) (record { func = f; outer = r.func ∷ r.outer; found = o })
      plain o fo = record {
        well_formed = (wf.0, caps, ok.well_formed);
        kind = refl;
        extends = Extends-refl f.upvalues;
        outer_extends = ext;
        found_ok = fo;
      }

      by_found : (o : Option Symbol) → r.found ≡ o → IsResolved n f (s ∷ ss) (capture_outer f r)
      by_found none e = rw (e, capture_outer) (plain none tt)
      by_found (some x) e =
          let fo : FoundOk n r.func (some x) = subst (FoundOk n r.func) e ok.found_ok in
          elim fo [
            | inl g ↦ rw (e, capture_outer) (rw g (plain (some x) (inl g)))
            | inr (up, name, index, there) ↦
                rw (e, capture_outer)
                  (rw (is_global_of_upvalue x.scope up) (
                    captures n f (s ∷ ss) (r.func ∷ r.outer) x false kf wf.0 caps ok.well_formed ext
                      name
                      (rw (function_upvalues_at r.func r.outer (ap is_function_scope ok.kind ∙ k))
                        (Captures-of_Indexed r.func.upvalues x false index))))
          ]

  past-IsResolved :
      (r : Resolved)
      → is_function_scope s.kind ≡ false
      → IsResolved n f ss r
      → IsResolved n f (s ∷ ss) (keep_block s r)
  past-IsResolved r k ok = record {
    well_formed = (
      ok.well_formed.0,
      rw (function_upvalues_past s r.outer k) ok.well_formed.1,
      (wf.2.0, All-Captures-Extends _ _ s.upvalues ok.outer_extends wf.2.1, ok.well_formed.2),
    );
    kind = ok.kind;
    extends = ok.extends;
    outer_extends =
        rw (function_upvalues_past s ss k, function_upvalues_past s r.outer k) ok.outer_extends;
    found_ok = ok.found_ok;
  }

pub resolve_upvalue_in-IsResolved :
    (n : String) (f : Scope) (ss : List Scope)
    → is_function_scope f.kind ≡ true
    → IsWellFormed (f ∷ ss)
    → IsResolved n f ss (resolve_upvalue_in n f ss)
unfolding resolve_upvalue_in
resolve_upvalue_in-IsResolved n f [] kf wf = unchanged n f [] none wf tt
resolve_upvalue_in-IsResolved n f (s ∷ ss) kf wf =
    by_scope (Bool-cases (has_function (s ∷ ss))) (Option-cases (lookup n s.symbols))
      (Bool-cases (is_function_scope s.kind)) (λ ks. resolve_upvalue_in-IsResolved n s ss ks wf.2)
      (λ ks.
        resolve_upvalue_in-IsResolved n f ss kf
          (wf.0, rw (← function_upvalues_past n f s ss kf wf s ss ks) wf.1, wf.2.2))
  where
    by_scope :
        (has_function (s ∷ ss) ≡ true) ⊎ (has_function (s ∷ ss) ≡ false)
        → (lookup n s.symbols ≡ none) ⊎ ((x : Symbol) × (lookup n s.symbols ≡ some x))
        → (is_function_scope s.kind ≡ true) ⊎ (is_function_scope s.kind ≡ false)
        → (is_function_scope s.kind ≡ true → IsResolved n s ss (resolve_upvalue_in n s ss))
        → (is_function_scope s.kind ≡ false → IsResolved n f ss (resolve_upvalue_in n f ss))
        → IsResolved n f (s ∷ ss) (resolve_upvalue_in n f (s ∷ ss))
    by_scope (inr h) o k ih₁ ih₂ =
        rw (h, resolve_upvalue_in) (unchanged n f (s ∷ ss) _ wf (find_global-FoundOk n f (s ∷ ss)))
    by_scope (inl h) (inr (x, e)) k ih₁ ih₂ =
        rw (h, resolve_upvalue_in) (rw (e, resolve_upvalue_in) (from-IsResolved n f s ss kf wf x e))
    by_scope (inl h) (inl e) (inl k) ih₁ ih₂ =
        rw (h, resolve_upvalue_in)
          (rw (e, resolve_upvalue_in)
            (rw k (outer-IsResolved n f s ss kf wf (resolve_upvalue_in n s ss) k (ih₁ k))))
    by_scope (inl h) (inl e) (inr k) ih₁ ih₂ =
        rw (h, resolve_upvalue_in)
          (rw (e, resolve_upvalue_in)
            (rw k (past-IsResolved n f s ss kf wf (resolve_upvalue_in n f ss) k (ih₂ k))))
