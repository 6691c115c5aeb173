-- ===== src/Resolver/Install.antt =====
-- The order in which packages are installed, and that the search ends.
use text.Mathlib.Text.{◌==◌}
use text.Mathlib.TextPositions.{eq_refl}
use mathlib.Core.Path.{subst}
use text.Mathlib.TextEquality.{eq_iff}
use nodus.Prelude.{
  refl, ap, ℕ, zero, suc, ◌≡◌, Bool, true, false, Option, none, some, List, [], ◌∷◌, ◌++◌, arith,
  All, String, if◌then◌else◌, ◌||◌,
}
use nodus.Resolver.{
  DependencySpec, validate_locked_or_resolved, Package, Resolved, Attempt, gives, cyclic, raises,
  unfinished, then_do, Installed, find, member, resolve_each, or_raise, sorted, install, known_or,
  fetch_spec, resolve_spec,
}

abbrev pub has : String → Installed → Bool
has name [] = false
has name (p ∷ ps) = (p.fetched.package_name == name) || has name ps

abbrev pub names_of : List DependencySpec → List String
names_of [] = []
names_of (spec ∷ specs) = spec.name ∷ names_of specs

-- what the specs ask for is installed
abbrev pub HasAll : Installed → List DependencySpec → Type 0
HasAll st specs = All (λ spec. has spec.name st ≡ true) specs

-- Every package is recorded with the names that its manifest asks for, and stands behind them: the
-- last one is the first of the list.
abbrev pub InOrder : (ℕ → Option (List DependencySpec)) → Installed → Type 0
InOrder manifest [] = Unit
InOrder manifest (p ∷ ps) =
    ((specs : List DependencySpec) × (manifest p.fetched.path ≡ some specs)
      × (p.dependencies ≡ sorted (names_of specs))
      × HasAll ps specs)
    × InOrder manifest ps

abbrev pub Keeps : Installed → Installed → Type 0
Keeps st st₁ = (name : String) → has name st ≡ true → has name st₁ ≡ true

-- What is so of the value that an attempt gives, if it gives one.
abbrev pub Gives : {A : Type 0} → (A → Type 0) → Attempt A → Type 0
Gives P (gives a) = P a
Gives P _ = Unit

Gives-then_do :
    {A B : Type 0} (P : A → Type 0) (Q : B → Type 0) (a : Attempt A) (f : A → Attempt B)
    → Gives P a
    → ((x : A) → P x → Gives Q (f x))
    → Gives Q (then_do a f)
Gives-then_do P Q (gives x) f h k = k x h
Gives-then_do P Q (cyclic ns) f h k = tt
Gives-then_do P Q raises f h k = tt
Gives-then_do P Q unfinished f h k = tt

pub Gives-weaken :
    {A : Type 0} (P Q : A → Type 0) (a : Attempt A) → Gives P a → ((x : A) → P x → Q x) → Gives Q a
Gives-weaken P Q (gives x) h f = f x h
Gives-weaken P Q (cyclic ns) h f = tt
Gives-weaken P Q raises h f = tt
Gives-weaken P Q unfinished h f = tt

Gives-or_raise : {A : Type 0} (o : Option A) → Gives (λ x. o ≡ some x) (or_raise o)
Gives-or_raise none = tt
Gives-or_raise (some a) = refl

-- a package that is found has the name, and is there
abbrev Found : String → Installed → Option Resolved → Type 0
Found name st none = Unit
Found name st (some p) = (has p.fetched.package_name st ≡ true) × (p.fetched.package_name ≡ name)

Found-more :
    (name : String) (q : Resolved) (st : Installed) (o : Option Resolved)
    → Found name st o
    → Found name (q ∷ st) o
Found-more name q st none h = tt
Found-more name q st (some p) h = (ground (arith, h.0), h.1)

find-Found : (name : String) (st : Installed) → Found name st (find name st)
find-Found name [] = tt
find-Found name (q ∷ qs) =
    by_name (q.fetched.package_name == name) refl
      (Found-more name q qs (find name qs) (find-Found name qs))
  where
    by_name :
        (b : Bool)
        → (q.fetched.package_name == name) ≡ b
        → Found name (q ∷ qs) (find name qs)
        → Found name (q ∷ qs) (if b then some q else find name qs)
    by_name true e rest = (ground (arith, eq_refl q.fetched.package_name), (eq_iff _ _).0 e)
    by_name false e rest = rest

module _ (manifest : ℕ → Option (List DependencySpec)) where
  -- The package that a spec resolves to has its name and is installed in what is left, with what
  -- was there before.
  abbrev pub Resolves : Installed → DependencySpec → Package × Installed → Type 0
  Resolves st spec (p, st₁) =
      InOrder manifest st₁
      × Keeps st st₁
      × (has p.package_name st₁ ≡ true)
      × (p.package_name ≡ spec.name)

  abbrev pub ResolvesAll : Installed → List DependencySpec → List String × Installed → Type 0
  ResolvesAll st specs (names, st₁) =
      InOrder manifest st₁ × Keeps st st₁ × (names ≡ names_of specs) × HasAll st₁ specs

  pub resolve_each-ResolvesAll :
      (resolve : DependencySpec → Installed → Attempt (Package × Installed))
      → ((spec : DependencySpec) (st : Installed)
          → InOrder manifest st
          → Gives (Resolves st spec) (resolve spec st))
      → (specs : List DependencySpec) (st : Installed) → InOrder manifest st
      → Gives (ResolvesAll st specs) (resolve_each resolve specs st)
  resolve_each-ResolvesAll resolve good [] st o = (o, λ n h. h, refl, tt)
  resolve_each-ResolvesAll resolve good (spec ∷ specs) st o =
      Gives-then_do (Resolves st spec) (ResolvesAll st (spec ∷ specs)) (resolve spec st) _
        (good spec st o)
        λ child r.
          Gives-then_do (ResolvesAll child.1 specs) (ResolvesAll st (spec ∷ specs))
            (resolve_each resolve specs child.1) _
            (resolve_each-ResolvesAll resolve good specs child.1 r.0)
            λ rest q. (
              q.0,
              λ n h. q.1 n (r.1 n h),
              cc (r.3, q.2),
              (q.1 spec.name (subst (λ n. has n child.1 ≡ true) r.3 r.2), q.3),
            )

  install-Resolves :
      (st : Installed) (spec : DependencySpec) (p : Package) (specs : List DependencySpec)
      (r : List String × Installed)
      → manifest p.path ≡ some specs
      → p.package_name ≡ spec.name
      → ResolvesAll st specs r
      → Resolves st spec (install p r)
  install-Resolves st spec p specs r m named (o, keeps, names, all) = (
    ((specs, m, ap sorted names, all), o),
    λ n h. ground (arith, keeps n h),
    ground (arith, eq_refl p.package_name),
    named,
  )

  known_or-Resolves :
      (fetched : Attempt (Package × Installed)) (spec : DependencySpec) (st : Installed)
      (f : Option Resolved)
      → InOrder manifest st
      → Found spec.name st f
      → Gives (Resolves st spec) fetched
      → Gives (Resolves st spec) (known_or fetched spec st f)
  known_or-Resolves fetched spec st none o found g = g
  known_or-Resolves fetched spec st (some p) o found g =
      by_test (validate_locked_or_resolved spec p.fetched.version)
    where
      by_test : (b : Bool) → Gives (Resolves st spec) (if b then gives (p.fetched, st) else raises)
      by_test true = (o, λ n h. h, found.0, found.1)
      by_test false = tt

module _ (fetch : ℕ → DependencySpec → Option Package) (manifest : ℕ → Option (List DependencySpec))
    (named : (root : ℕ) (spec : DependencySpec) (p : Package)
      → fetch root spec ≡ some p
      → p.package_name ≡ spec.name) where
  fetch_spec-Resolves :
      (resolve : ℕ → DependencySpec → Installed → Attempt (Package × Installed))
      → ((root : ℕ) (spec : DependencySpec) (st : Installed)
          → InOrder manifest st
          → Gives (Resolves manifest st spec) (resolve root spec st))
      → (visiting : List String) (root : ℕ) (spec : DependencySpec) (st : Installed)
      → InOrder manifest st
      → Gives (Resolves manifest st spec) (fetch_spec fetch manifest resolve visiting root spec st)
  fetch_spec-Resolves resolve good visiting root spec st o = by_test (member spec.name visiting)
    where
      goes_on : Gives (Resolves manifest st spec) (
          then_do (or_raise (fetch root spec)) λ p.
            then_do
              (or_raise (manifest p.path))
              λ specs. then_do (resolve_each (resolve p.path) specs st) λ r. gives (install p r))
      goes_on =
          Gives-then_do (λ p. fetch root spec ≡ some p) (Resolves manifest st spec)
            (or_raise (fetch root spec)) _ (Gives-or_raise (fetch root spec))
            λ p e.
              Gives-then_do (λ specs. manifest p.path ≡ some specs) (Resolves manifest st spec)
                (or_raise (manifest p.path)) _ (Gives-or_raise (manifest p.path))
                λ specs m.
                  Gives-then_do (ResolvesAll manifest st specs) (Resolves manifest st spec)
                    (resolve_each (resolve p.path) specs st) _
                    (resolve_each-ResolvesAll manifest (resolve p.path) (good p.path) specs st o)
                    λ r. install-Resolves manifest st spec p specs r m (named root spec p e)

      by_test :
          (b : Bool)
          → Gives (Resolves manifest st spec) (
              if b
              then cyclic (visiting ++ spec.name ∷ [])
              else then_do (or_raise (fetch root spec)) λ p.
                then_do (or_raise (manifest p.path)) λ specs.
                  then_do (resolve_each (resolve p.path) specs st) λ r. gives (install p r))
      by_test true = tt
      by_test false = goes_on

  pub resolve_spec-Resolves :
      (n : ℕ) (visiting : List String) (root : ℕ) (spec : DependencySpec) (st : Installed)
      → InOrder manifest st
      → Gives (Resolves manifest st spec) (resolve_spec fetch manifest n visiting root spec st)
  unfolding resolve_spec
  resolve_spec-Resolves zero visiting root spec st o = tt
  resolve_spec-Resolves (suc n) visiting root spec st o =
      let trail = visiting ++ spec.name ∷ [] in
      known_or-Resolves manifest _ spec st (find spec.name st) o (find-Found spec.name st) (
        fetch_spec-Resolves (resolve_spec fetch manifest n trail) (resolve_spec-Resolves n trail)
          visiting root spec st o)
