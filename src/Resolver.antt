-- ===== src/Resolver.antt =====
-- src/nodus/tooling/resolver.py: the requirement tests, `_select_registry_package` and the depth-first
-- search of `resolve_project_dependencies`, which is given how one package is fetched (Fetch) and its
-- manifest. A version is a Text, a name a String, a path a number.
pub mod Fetch
pub mod Satisfies
pub mod Install
pub mod Names
pub mod Ends
pub mod Tests
use nodus.Prelude.{
  ℕ, zero, suc, Bool, true, false, not, Option, none, some, List, [], ◌∷◌, ◌++◌, String,
  if◌then◌else◌, ◌==◌, ◌&&◌, ◌||◌,
}
use nodus.Prelude.Dict.{Dict}
use nodus.Text.{Text}
use nodus.Semver.{Version, Comparator, parse, lt, parse_range, range_matches}
use Prim.Native.Nat.{Ordering}
use Prim.Native.String.{compare}
use text.Mathlib.Text.{◌==◌ as ◌is◌}

-- DependencySpec, and whether its kind is "version"
pub record DependencySpec : Type 0 where
  pub name : String
  pub is_version : Bool
  pub value : Text

abbrev pub same_text : Text → Text → Bool
same_text [] [] = true
same_text (c ∷ s) (d ∷ t) = (c == d) && same_text s t
same_text _ _ = false

abbrev pub answered : Bool → Option Bool → Bool
answered fallback none = fallback
answered fallback (some b) = b

-- `VersionRange.parse(requirement).matches(Version.parse(version))`, with the answer for a ValueError
abbrev pub matches_range : Bool → Option (List Comparator) → Option Version → Bool
matches_range fallback none v = fallback
matches_range fallback (some range) none = fallback
matches_range fallback (some range) (some v) = answered fallback (range_matches range v)

-- _matches_requirement
unfoldable pub matches_requirement : Text → Text → Bool
matches_requirement requirement version =
    matches_range (same_text version requirement) (parse_range requirement) (parse version)

-- _validate_locked_or_resolved: whether it returns
unfoldable pub validate_locked_or_resolved : DependencySpec → Text → Bool
validate_locked_or_resolved spec version =
    not spec.is_version || matches_requirement spec.value version

unfoldable pub matching : Text → List Text → List Text
matching requirement [] = []
matching requirement (c ∷ cs) =
    let rest = matching requirement cs in
    if matches_requirement requirement c then c ∷ rest else rest

-- `matching.sort(key=Version.parse, reverse=True)`: stable, the greatest version first, and `none`
-- when a version does not parse
abbrev pub insert_version : Version × Text → List (Version × Text) → List (Version × Text)
insert_version x [] = x ∷ []
insert_version x (y ∷ ys) = if lt x.0 y.0 then y ∷ insert_version x ys else x ∷ y ∷ ys

abbrev pub insert_parsed :
    Text → Option Version → Option (List (Version × Text)) → Option (List (Version × Text))
insert_parsed t (some v) (some ys) = some (insert_version (v, t) ys)
insert_parsed t _ _ = none

unfoldable pub sort_versions : List Text → Option (List (Version × Text))
sort_versions [] = some []
sort_versions (t ∷ ts) = insert_parsed t (parse t) (sort_versions ts)

pub data Selection : Type 0 where
  chosen : Text → Selection
  not_available no_match bad_version locked_unavailable unsatisfied : Selection

abbrev pub first_of : Option (List (Version × Text)) → Selection
first_of (some ((v, t) ∷ rest)) = chosen t
first_of (some []) = no_match
first_of none = bad_version

-- the locked version, as the registry gives it
abbrev pub select_locked : DependencySpec → Option Text → Selection
select_locked spec none = locked_unavailable
select_locked spec (some version) =
    if validate_locked_or_resolved spec version then chosen version else unsatisfied

abbrev pub select_from : DependencySpec → List Text → Option (Option Text) → Selection
select_from spec candidates (some locked) = select_locked spec locked
select_from spec candidates none = first_of (sort_versions (matching spec.value candidates))

-- _select_registry_package, of the available versions; with a locked version, what
-- `registry.get` answers for it
unfoldable pub select_registry_package :
    DependencySpec → List Text → Option (Option Text) → Selection
select_registry_package spec [] locked = not_available
select_registry_package spec (c ∷ cs) locked = select_from spec (c ∷ cs) locked

-- what _resolve_single_dependency gives, and ResolvedPackage with the names that it depends on
pub record Package : Type 0 where
  pub package_name : String
  pub version : Text
  pub path : ℕ

pub record Resolved : Type 0 where
  pub fetched : Package
  pub dependencies : List String

pub data Attempt (A : Type 0) : Type 0 where
  gives : A → Attempt A
  cyclic : List String → Attempt A
  raises unfinished : Attempt A

abbrev pub then_do : {A B : Type 0} → Attempt A → (A → Attempt B) → Attempt B
then_do (gives a) f = f a
then_do (cyclic names) f = cyclic names
then_do raises f = raises
then_do unfinished f = unfinished

-- `packages`, `graph` and `install_order` in one list, the last package first
abbrev pub Installed : Type 0
Installed = List Resolved

abbrev pub find : String → Installed → Option Resolved
find name [] = none
find name (p ∷ ps) = if p.fetched.package_name is name then some p else find name ps

abbrev pub member : String → List String → Bool
member name [] = false
member name (n ∷ ns) = (n is name) || member name ns

-- the loop over the dependencies: the names of the children and what is installed
abbrev pub resolve_each :
    (DependencySpec → Installed → Attempt (Package × Installed))
    → List DependencySpec
    → Installed
    → Attempt (List String × Installed)
resolve_each resolve [] st = gives ([], st)
resolve_each resolve (spec ∷ specs) st = then_do (resolve spec st) λ child.
    then_do (resolve_each resolve specs child.1)
      λ rest. gives (child.0.package_name ∷ rest.0, rest.1)

abbrev pub or_raise : {A : Type 0} → Option A → Attempt A
or_raise none = raises
or_raise (some a) = gives a

-- sorted(names)
abbrev pub insert_name : String → List String → List String
insert_name n [] = n ∷ []
insert_name n (m ∷ ms) =
    let rest = m ∷ insert_name n ms in elim (compare n m) [ Ordering.gt ↦ rest | _ ↦ n ∷ m ∷ ms ]

abbrev pub sorted : List String → List String
sorted [] = []
sorted (n ∷ ns) = insert_name n (sorted ns)

-- the package is recorded with the names of its children
abbrev pub install : Package → List String × Installed → Package × Installed
install p r = (p, record { fetched = p; dependencies = sorted r.0 } ∷ r.1)

-- a package that is known already, if it has a version that serves
abbrev pub known_or :
    Attempt (Package × Installed)
    → DependencySpec
    → Installed
    → Option Resolved
    → Attempt (Package × Installed)
known_or fetched spec st none = fetched
known_or fetched spec st (some p) =
    if validate_locked_or_resolved spec p.fetched.version then gives (p.fetched, st) else raises

module _ (fetch : ℕ → DependencySpec → Option Package)
    (manifest : ℕ → Option (List DependencySpec)) where
  -- a name that is being resolved is a cycle; any other one is fetched, then what it needs
  abbrev pub fetch_spec :
      (ℕ → DependencySpec → Installed → Attempt (Package × Installed))
      → List String
      → ℕ
      → DependencySpec
      → Installed
      → Attempt (Package × Installed)
  fetch_spec resolve visiting root spec st =
      if member spec.name visiting
      then cyclic (visiting ++ spec.name ∷ [])
      else then_do (or_raise (fetch root spec)) λ p.
        then_do (or_raise (manifest p.path))
          λ specs. then_do (resolve_each (resolve p.path) specs st) λ r. gives (install p r)

  -- resolve_spec with the project at `root`, on fuel
  unfoldable pub resolve_spec :
      ℕ → List String → ℕ → DependencySpec → Installed → Attempt (Package × Installed)
  resolve_spec zero visiting root spec st = unfinished
  resolve_spec (suc n) visiting root spec st =
      known_or (fetch_spec (resolve_spec n (visiting ++ spec.name ∷ [])) visiting root spec st) spec
        st (find spec.name st)

  -- resolve_project_dependencies: what is installed for a project and its dependencies
  unfoldable pub resolve_project : ℕ → ℕ → List DependencySpec → Attempt (List String × Installed)
  resolve_project n root specs = resolve_each (resolve_spec n [] root) specs []
