-- ===== src/Resolver/Ends.antt =====
-- That the search of packages ends, and what it leaves.
use text.Mathlib.Text.{◌==◌}
use text.Mathlib.TextEquality.{eq_iff}
use mathlib.Core.Path.{subst}
use nodus.Resolver.Install.{HasAll}
use nodus.Resolver.Fetch.{Sources, Client, resolve_single_dependency}
use nodus.Resolver.Names.{Like, resolve_single-Like}
use nodus.Prelude.{
  ℕ, zero, suc, ◌≤◌, ◌<◌, ◌≡◌, refl, Bool, true, false, Option, none, some, List, [], ◌∷◌, ◌++◌,
  arith, All, String, if◌then◌else◌, ◌||◌, length,
}
use nodus.Resolver.{
  DependencySpec, validate_locked_or_resolved, Package, Resolved, Attempt, gives, cyclic, raises,
  unfinished, then_do, Installed, find, member, resolve_each, or_raise, install, known_or,
  fetch_spec, resolve_spec, resolve_project,
}
use nodus.Resolver.Install.{
  InOrder, Gives, Gives-weaken, ResolvesAll, resolve_each-ResolvesAll, resolve_spec-Resolves,
}

-- The search does not run out of fuel.
abbrev pub Ends : {A : Type 0} → Attempt A → Type 0
Ends unfinished = ⊥
Ends _ = Unit

Ends-then_do :
    {A B : Type 0} (a : Attempt A) (f : A → Attempt B)
    → Ends a
    → ((x : A) → Ends (f x))
    → Ends (then_do a f)
Ends-then_do (gives x) f h k = k x
Ends-then_do (cyclic ns) f h k = tt
Ends-then_do raises f h k = tt
Ends-then_do unfinished f h k = elim h [ ]

-- how many of the names are not being resolved
abbrev pub unvisited : List String → List String → ℕ
unvisited [] visiting = 0
unvisited (u ∷ us) visiting =
    if member u visiting then unvisited us visiting else suc (unvisited us visiting)

member-append :
    (n x : String) (ns : List String) → member n (ns ++ x ∷ []) ≡ (member n ns || x == n)
member-append n x [] = ground arith
member-append n x (m ∷ ns) = ground (arith, member-append n x ns)

unvisited-le :
    (us : List String) (x : String) (ns : List String)
    → unvisited us (ns ++ x ∷ []) ≤ unvisited us ns
unvisited-le [] x ns = omega arith
unvisited-le (u ∷ us) x ns = ground (arith, unvisited-le us x ns, member-append u x ns)

unvisited-lt :
    (us : List String) (x : String) (ns : List String)
    → member x us ≡ true
    → member x ns ≡ false
    → unvisited us (ns ++ x ∷ []) < unvisited us ns
unvisited-lt [] x ns h k = ground arith
unvisited-lt (u ∷ us) x ns h k =
    ground (arith, unvisited-lt us x ns, unvisited-le us x ns, member-append u x ns, eq_iff u x)

unvisited-le_length : (us : List String) → unvisited us [] ≤ length us
unvisited-le_length [] = omega arith
unvisited-le_length (u ∷ us) = omega (arith, unvisited-le_length us)

Ends-or_raise : {A : Type 0} (o : Option A) → Ends (or_raise o)
Ends-or_raise none = tt
Ends-or_raise (some a) = tt

abbrev pub Named : List String → List DependencySpec → Type 0
Named names specs = All (λ spec. member spec.name names ≡ true) specs

resolve_each-Ends :
    (names : List String) (resolve : DependencySpec → Installed → Attempt (Package × Installed))
    → ((spec : DependencySpec) (st : Installed)
        → member spec.name names ≡ true
        → Ends (resolve spec st))
    → (specs : List DependencySpec) (st : Installed) → Named names specs
    → Ends (resolve_each resolve specs st)
resolve_each-Ends names resolve ends [] st named = tt
resolve_each-Ends names resolve ends (spec ∷ specs) st named =
    Ends-then_do (resolve spec st) _ (ends spec st named.0) λ child.
      Ends-then_do (resolve_each resolve specs child.1) _
        (resolve_each-Ends names resolve ends specs child.1 named.1) λ rest. tt

known_or-Ends :
    (fetched : Attempt (Package × Installed)) (spec : DependencySpec) (st : Installed)
    (f : Option Resolved)
    → Ends fetched
    → Ends (known_or fetched spec st f)
known_or-Ends fetched spec st none e = e
known_or-Ends fetched spec st (some p) e =
    by_test (validate_locked_or_resolved spec p.fetched.version)
  where
    by_test :
        (b : Bool) → Ends {A = Package × Installed} (if b then gives (p.fetched, st) else raises)
    by_test true = tt
    by_test false = tt

module _ (fetch : ℕ → DependencySpec → Option Package) (manifest : ℕ → Option (List DependencySpec))
    (names : List String)
    (closed : (path : ℕ) (specs : List DependencySpec)
      → manifest path ≡ some specs
      → Named names specs) where
  after_manifest :
      (o : Option (List DependencySpec)) (f : List DependencySpec → Attempt (Package × Installed))
      → ((specs : List DependencySpec) → o ≡ some specs → Ends (f specs))
      → Ends (then_do (or_raise o) f)
  after_manifest none f h = tt
  after_manifest (some specs) f h = h specs refl

  fetch_spec-Ends :
      (resolve : ℕ → DependencySpec → Installed → Attempt (Package × Installed))
      (visiting : List String) (root : ℕ) (spec : DependencySpec) (st : Installed)
      → (member spec.name visiting ≡ false
          → (path : ℕ) (spec₁ : DependencySpec) (st₁ : Installed) → member spec₁.name names ≡ true
          → Ends (resolve path spec₁ st₁))
      → Ends (fetch_spec fetch manifest resolve visiting root spec st)
  fetch_spec-Ends resolve visiting root spec st ends = by_test (member spec.name visiting) refl
    where
      by_test :
          (b : Bool)
          → member spec.name visiting ≡ b
          → Ends (
              if b
              then cyclic (visiting ++ spec.name ∷ [])
              else then_do (or_raise (fetch root spec)) λ p.
                then_do (or_raise (manifest p.path)) λ specs.
                  then_do (resolve_each (resolve p.path) specs st) λ r. gives (install p r))
      by_test true e = tt
      by_test false e =
          Ends-then_do (or_raise (fetch root spec)) _ (Ends-or_raise (fetch root spec)) λ p.
            after_manifest (manifest p.path) _ λ specs m.
              Ends-then_do (resolve_each (resolve p.path) specs st) _
                (resolve_each-Ends names (resolve p.path) (ends e p.path) specs st
                  (closed p.path specs m))
                λ r. tt

  resolve_spec-Ends :
      (n : ℕ) (visiting : List String) (root : ℕ) (spec : DependencySpec) (st : Installed)
      → unvisited names visiting < n
      → member spec.name names ≡ true
      → Ends (resolve_spec fetch manifest n visiting root spec st)
  unfolding resolve_spec
  resolve_spec-Ends zero visiting root spec st lt known = absurd (omega arith)
  resolve_spec-Ends (suc n) visiting root spec st lt known =
      let trail = visiting ++ spec.name ∷ [] in
      known_or-Ends _ spec st (find spec.name st) (
        fetch_spec-Ends (resolve_spec fetch manifest n trail) visiting root spec st
          λ new path spec₁ st₁ known₁.
            resolve_spec-Ends n trail path spec₁ st₁
              (omega (arith, unvisited-lt names spec.name visiting known new)) known₁)

-- The search of packages ends, with packages, with a cycle or with an error, on fuel of more than
-- the number of names that the project and every manifest mention. If it gives packages, every
-- dependency that the project lists is installed, and each package is recorded with the sorted
-- names that its manifest lists and was installed after the packages of all of them.
pub resolve_project-InOrder :
    (s : Sources) (client : Option Client) (manifest : ℕ → Option (List DependencySpec))
    (names : List String)
    → ((path : ℕ) (specs : List DependencySpec) → manifest path ≡ some specs → Named names specs)
    → (n root : ℕ) (specs : List DependencySpec) → Named names specs
    → length names < n
    → Ends (resolve_project (resolve_single_dependency s client) manifest n root specs)
      × Gives
          (λ r. InOrder manifest r.1 × HasAll r.1 specs)
          (resolve_project (resolve_single_dependency s client) manifest n root specs)
unfolding resolve_project
resolve_project-InOrder s client manifest names closed n root specs named lt =
    let fetch = resolve_single_dependency s client in
    let resolve = resolve_spec fetch manifest n [] root in
    (
      resolve_each-Ends names resolve
          (λ spec st known.
            resolve_spec-Ends fetch manifest names closed n [] root spec st
              (omega (arith, unvisited-le_length names)) known)
          specs [] named,
      Gives-weaken (ResolvesAll manifest [] specs) (λ r. InOrder manifest r.1 × HasAll r.1 specs) _
          (resolve_each-ResolvesAll manifest resolve
            (resolve_spec-Resolves fetch manifest
              (λ path spec p e. subst (Like spec) e (resolve_single-Like s client path spec)) n []
              root)
            specs [] tt)
          (λ r q. (q.0, q.3)),
    )
