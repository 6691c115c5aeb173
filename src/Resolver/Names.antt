-- ===== src/Resolver/Names.antt =====
-- That a package is fetched under the name that is asked for.
use nodus.Prelude.{ℕ, ◌≡◌, refl, Bool, true, false, Option, none, some, if◌then◌else◌}
use nodus.Text.{Text}
use nodus.Resolver.{
  DependencySpec, Package, Selection, chosen, not_available, no_match, bad_version,
  locked_unavailable, unsatisfied, select_registry_package, validate_locked_or_resolved,
}
use nodus.Resolver.Fetch.{
  Sources, Client, LockedPackage, from_selection, from_registry_with, from_client, from_path,
  constraint, version_from, resolve_single_dependency,
}

-- What is fetched has the name that the spec has.
abbrev pub Like : DependencySpec → Option Package → Type 0
Like spec none = Unit
Like spec (some p) = p.package_name ≡ spec.name

selection-Like :
    (s : Sources) (spec : DependencySpec) (x : Selection) → Like spec (from_selection s spec x)
selection-Like s spec (chosen v) = refl
selection-Like s spec not_available = tt
selection-Like s spec no_match = tt
selection-Like s spec bad_version = tt
selection-Like s spec locked_unavailable = tt
selection-Like s spec unsatisfied = tt

Like-if :
    (spec : DependencySpec) (b : Bool) (o o₁ : Option Package)
    → Like spec o
    → Like spec o₁
    → Like spec (if b then o else o₁)
Like-if spec true o o₁ h k = h
Like-if spec false o o₁ h k = k

registry-Like :
    (s : Sources) (spec : DependencySpec) (o : Option LockedPackage)
    → Like spec (from_registry_with s spec o)
registry-Like s spec none =
    selection-Like s spec (select_registry_package spec (s.available_versions spec.name) none)
registry-Like s spec (some l) =
    let x =
      select_registry_package spec (s.available_versions spec.name)
        (some (s.registry_get spec.name l.version)) in
    Like-if spec (validate_locked_or_resolved spec l.version) (from_selection s spec x) none
      (selection-Like s spec x) tt

client-Like :
    (s : Sources) (spec : DependencySpec) (o : Option Text) → Like spec (from_client s spec o)
client-Like s spec none = tt
client-Like s spec (some v) = refl

path-Like : (spec : DependencySpec) (o : Option (Text × ℕ)) → Like spec (from_path spec o)
path-Like spec none = tt
path-Like spec (some (v, root)) = refl

version-Like :
    (s : Sources) (client : Option Client) (spec : DependencySpec)
    → Like spec (version_from s client spec)
version-Like s none spec = registry-Like s spec (s.locked spec.name)
version-Like s (some client) spec =
    client-Like s spec (client spec.name (constraint spec (s.locked spec.name)))

pub resolve_single-Like :
    (s : Sources) (client : Option Client) (root : ℕ) (spec : DependencySpec)
    → Like spec (resolve_single_dependency s client root spec)
unfolding resolve_single_dependency
resolve_single-Like s client root spec =
    Like-if spec spec.is_version (version_from s client spec)
      (from_path spec (s.load_project (s.resolve_path root spec.value)))
      (version-Like s client spec)
      (path-Like spec (s.load_project (s.resolve_path root spec.value)))
