-- ===== src/Resolver/Fetch.antt =====
-- src/nodus/tooling/resolver.py: `_resolve_single_dependency`. The projects on disk, the paths, the
-- lockfile, the registry and the client of a remote registry are what it is given.
use nodus.Prelude.{ℕ, Bool, Option, none, some, List, String, if◌then◌else◌}
use nodus.Text.{Text}
use nodus.Resolver.{
  DependencySpec, Package, Selection, chosen, validate_locked_or_resolved, select_registry_package,
}

-- LockedPackage, and whether its source is "registry"
pub record LockedPackage : Type 0 where
  pub version : Text
  pub from_registry : Bool

-- a name and a constraint: the version that `resolve_version` finds and `install_package` stages
abbrev pub Client : Type 0
Client = String → Text → Option Text

pub record Sources : Type 0 where
  -- the version and the root of the project at a path, if one can be loaded
  pub load_project : ℕ → Option (Text × ℕ)
  pub resolve_path : ℕ → Text → ℕ
  pub locked : String → Option LockedPackage
  pub available_versions : String → List Text
  -- `registry.get`: the version of the package it gives
  pub registry_get : String → Text → Option Text
  pub registry_path : String → Text → ℕ
  pub staging_path : String → ℕ

abbrev pub package_at : DependencySpec → (Text → ℕ) → Text → Package
package_at spec path v = record { package_name = spec.name; version = v; path = path v }

abbrev pub from_path : DependencySpec → Option (Text × ℕ) → Option Package
from_path spec none = none
from_path spec (some (v, root)) = some (package_at spec (λ u. root) v)

-- the constraint for a remote registry
abbrev pub constraint : DependencySpec → Option LockedPackage → Text
constraint spec none = spec.value
constraint spec (some l) = if l.from_registry then l.version else spec.value

abbrev pub from_client : Sources → DependencySpec → Option Text → Option Package
from_client s spec none = none
from_client s spec (some v) = some (package_at spec (λ u. s.staging_path spec.name) v)

abbrev pub from_selection : Sources → DependencySpec → Selection → Option Package
from_selection s spec (chosen v) = some (package_at spec (s.registry_path spec.name) v)
from_selection s spec _ = none

abbrev pub from_registry_with : Sources → DependencySpec → Option LockedPackage → Option Package
from_registry_with s spec none =
    from_selection s spec (select_registry_package spec (s.available_versions spec.name) none)
from_registry_with s spec (some l) =
    if validate_locked_or_resolved spec l.version
    then from_selection s spec (
        select_registry_package spec (s.available_versions spec.name)
          (some (s.registry_get spec.name l.version)))
    else none

abbrev pub version_from : Sources → Option Client → DependencySpec → Option Package
version_from s none spec = from_registry_with s spec (s.locked spec.name)
version_from s (some client) spec =
    from_client s spec (client spec.name (constraint spec (s.locked spec.name)))

-- _resolve_single_dependency; `none` where it raises
unfoldable pub resolve_single_dependency :
    Sources → Option Client → ℕ → DependencySpec → Option Package
resolve_single_dependency s client root spec =
    if spec.is_version
    then version_from s client spec
    else from_path spec (s.load_project (s.resolve_path root spec.value))
