-- ===== src/Resolver/Tests.antt =====
-- A project with two dependencies, of which one needs the other, the search of packages for it, and a
-- package that is locked at a version which its requirement no longer admits.
use mathlib.Core.Path.{subst}
use text.Mathlib.Text.{◌==◌}
use Prim.Native.Char.{code}
use nodus.Text.{Text, is_space, is_digit, all_digits, strip, split, int_from, starts_with}
use nodus.Semver.{matches, range_matches, parse, parse_range, rest_of, parse_part}
use nodus.Resolver.Fetch.{LockedPackage, Client, Sources, package_at, resolve_single_dependency}
use nodus.Resolver.Satisfies.{Satisfies, fetched-Satisfies, locked_version-unchecked}
use nodus.Prelude.{
  ℕ, zero, suc, ◌≡◌, refl, true, false, Option, none, some, List, [], ◌∷◌, arith, String,
  if◌then◌else◌,
}
use nodus.Resolver.{
  matches_requirement, select_registry_package, matching, sort_versions, DependencySpec, Attempt,
  gives, cyclic, Installed, validate_locked_or_resolved, resolve_spec, resolve_project,
}
use nodus.Resolver.Install.{HasAll, InOrder, Gives}
use nodus.Resolver.Ends.{Ends, Named, resolve_project-InOrder}

abbrev path_of : String → ℕ
path_of name = if name == "app" then 1 else if name == "log" then 2 else 3

abbrev at_path : String → DependencySpec
at_path name = record { name = name; is_version = false; value = path_of name ∷ [] }

abbrev first_of : Text → ℕ
first_of [] = 0
first_of (n ∷ t) = n

-- every project can be loaded, and the text of a path is its number
abbrev projects : Sources
projects = record {
  load_project = λ path. some ([], path);
  resolve_path = λ root value. first_of value;
  locked = λ name. none;
  available_versions = λ name. [];
  registry_get = λ name v. none;
  registry_path = λ name v. 0;
  staging_path = λ name. 0;
}

abbrev project : List DependencySpec
project = at_path "app" ∷ at_path "log" ∷ []

abbrev resolved : (ℕ → Option (List DependencySpec)) → Attempt (List String × Installed)
resolved manifest = resolve_project (resolve_single_dependency projects none) manifest 3 0 project

-- `app` needs `log`, and nothing else needs anything
abbrev manifest : ℕ → Option (List DependencySpec)
manifest zero = some []
manifest (suc zero) = some (at_path "log" ∷ [])
manifest (suc (suc n)) = some []

abbrev order : Installed → List String
order [] = []
order (p ∷ ps) = p.fetched.package_name ∷ order ps

abbrev names_of : Attempt (List String × Installed) → List String
names_of (gives (names, st)) = order st
names_of (cyclic names) = "cycle" ∷ names
names_of _ = []

log_before_app : names_of (resolved manifest) ≡ "app" ∷ "log" ∷ []
unfolding resolve_project resolve_spec resolve_single_dependency validate_locked_or_resolved
log_before_app = refl

-- with the manifests of two packages that need each other
abbrev mutual_manifest : ℕ → Option (List DependencySpec)
mutual_manifest zero = some []
mutual_manifest (suc zero) = some (at_path "log" ∷ [])
mutual_manifest (suc (suc n)) = some (at_path "app" ∷ [])

cycle_is_reported : names_of (resolved mutual_manifest) ≡ "cycle" ∷ "app" ∷ "log" ∷ "app" ∷ []
unfolding resolve_project resolve_spec resolve_single_dependency validate_locked_or_resolved
cycle_is_reported = refl

abbrev known_names : List String
known_names = "app" ∷ "log" ∷ []

abbrev NamedIn : Option (List DependencySpec) → Type 0
NamedIn none = Unit
NamedIn (some specs) = Named known_names specs

manifest-NamedIn : (path : ℕ) → NamedIn (manifest path)
manifest-NamedIn zero = tt
manifest-NamedIn (suc zero) = (refl, tt)
manifest-NamedIn (suc (suc n)) = tt

manifest-Named :
    (path : ℕ) (specs : List DependencySpec) → manifest path ≡ some specs → Named known_names specs
manifest-Named path specs e = subst NamedIn e (manifest-NamedIn path)

resolve_project-InOrder_example :
    Ends (resolved manifest)
    × Gives (λ r. InOrder manifest r.1 × HasAll r.1 project) (resolved manifest)
resolve_project-InOrder_example =
    resolve_project-InOrder projects none manifest known_names manifest-Named 3 0 project
      (refl, (refl, tt)) (omega arith)

abbrev codes : String → Text
codes String.[] = []
codes (String.◌∷◌ c s) = code c ∷ codes s

-- `lib` was locked at a version that its requirement no longer admits.
abbrev old_version : Text
old_version = codes "1.2.0"

abbrev new_requirement : DependencySpec
new_requirement = record { name = "lib"; is_version = true; value = codes "^2.0" }

abbrev old_lock : LockedPackage
old_lock = record { version = old_version; from_registry = true }

abbrev sources : Sources
sources = record {
  load_project = λ path. none;
  resolve_path = λ root value. root;
  locked = λ name. some old_lock;
  available_versions = λ name. old_version ∷ codes "2.1.0" ∷ [];
  registry_get = λ name v. some v;
  registry_path = λ name v. 7;
  staging_path = λ name. 8;
}

abbrev client : Client
client name v = some v

requirement_fails : validate_locked_or_resolved new_requirement old_version ≡ false
unfolding validate_locked_or_resolved matches_requirement parse_range range_matches matches parse
    strip split int_from all_digits is_digit is_space starts_with rest_of parse_part
requirement_fails = refl

abbrev unlocked : Sources
unlocked = record sources { locked = λ name. none }

newest_is_fetched :
    resolve_single_dependency unlocked none 0 new_requirement
    ≡ some (package_at new_requirement (λ u. 7) (codes "2.1.0"))
unfolding resolve_single_dependency select_registry_package matching sort_versions
    matches_requirement parse_range range_matches matches parse strip split int_from all_digits
    is_digit is_space starts_with rest_of parse_part
newest_is_fetched = refl

fetched-Satisfies_example :
    Satisfies new_requirement (resolve_single_dependency unlocked none 0 new_requirement)
fetched-Satisfies_example = fetched-Satisfies unlocked 0 new_requirement

locked_version-unchecked_example :
    (resolve_single_dependency sources none 0 new_requirement ≡ none)
    × (resolve_single_dependency sources (some client) 0 new_requirement
        ≡ some (package_at new_requirement (λ u. 8) old_version))
locked_version-unchecked_example =
    locked_version-unchecked sources client 0 new_requirement old_lock refl refl refl
      requirement_fails refl
