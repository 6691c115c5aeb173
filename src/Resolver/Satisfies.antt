-- ===== src/Resolver/Satisfies.antt =====
-- That the version which is fetched satisfies its requirement, and where it need not.
use nodus.Prelude.{
  ℕ, ◌≡◌, refl, ap, ◌∙◌, Bool, true, false, Option, none, some, List, [], ◌∷◌, arith, if◌then◌else◌,
}
use nodus.Text.{Text}
use nodus.Semver.{Version, parse, lt}
use nodus.Resolver.{
  DependencySpec, Package, Selection, chosen, not_available, no_match, bad_version,
  locked_unavailable, unsatisfied, validate_locked_or_resolved, select_registry_package,
  matches_requirement, matching, insert_version, insert_parsed, sort_versions, first_of,
  select_locked,
}
use nodus.Resolver.Fetch.{
  LockedPackage, Client, Sources, package_at, from_path, constraint, from_client, from_selection,
  from_registry_with, version_from, resolve_single_dependency,
}

-- What the local registry gives satisfies the requirement, locked or not.
abbrev pub Satisfies : DependencySpec → Option Package → Type 0
Satisfies spec none = Unit
Satisfies spec (some p) = validate_locked_or_resolved spec p.version ≡ true

abbrev AllMatch : Text → List (Version × Text) → Type 0
AllMatch requirement [] = Unit
AllMatch requirement ((v, t) ∷ rest) =
    (matches_requirement requirement t ≡ true) × AllMatch requirement rest

abbrev SortedMatch : Text → Option (List (Version × Text)) → Type 0
SortedMatch requirement none = Unit
SortedMatch requirement (some vs) = AllMatch requirement vs

AllMatch-insert_version :
    (r : Text) (v : Version) (t : Text) (vs : List (Version × Text))
    → matches_requirement r t ≡ true
    → AllMatch r vs
    → AllMatch r (insert_version (v, t) vs)
AllMatch-insert_version r v t [] h a = (h, tt)
AllMatch-insert_version r v t ((u, s) ∷ vs) h a =
    by_order (lt v u) (AllMatch-insert_version r v t vs h a.1)
  where
    by_order :
        (b : Bool)
        → AllMatch r (insert_version (v, t) vs)
        → AllMatch r (if b then (u, s) ∷ insert_version (v, t) vs else (v, t) ∷ (u, s) ∷ vs)
    by_order true rest = (a.0, rest)
    by_order false rest = (h, a)

SortedMatch-insert_parsed :
    (r t : Text) (o : Option Version) (vs : Option (List (Version × Text)))
    → matches_requirement r t ≡ true
    → SortedMatch r vs
    → SortedMatch r (insert_parsed t o vs)
SortedMatch-insert_parsed r t none vs h a = tt
SortedMatch-insert_parsed r t (some v) none h a = tt
SortedMatch-insert_parsed r t (some v) (some vs) h a = AllMatch-insert_version r v t vs h a

sort-SortedMatch : (r : Text) (cs : List Text) → SortedMatch r (sort_versions (matching r cs))
unfolding matching sort_versions
sort-SortedMatch r [] = tt
sort-SortedMatch r (c ∷ cs) = by_match (matches_requirement r c) refl (sort-SortedMatch r cs)
  where
    by_match :
        (b : Bool)
        → matches_requirement r c ≡ b
        → SortedMatch r (sort_versions (matching r cs))
        → SortedMatch r (sort_versions (if b then c ∷ matching r cs else matching r cs))
    by_match true e rest =
        SortedMatch-insert_parsed r c (parse c) (sort_versions (matching r cs)) e rest
    by_match false e rest = rest

abbrev ChoosesValid : DependencySpec → Selection → Type 0
ChoosesValid spec (chosen v) = validate_locked_or_resolved spec v ≡ true
ChoosesValid spec _ = Unit

first_of-ChoosesValid :
    (spec : DependencySpec) (vs : Option (List (Version × Text)))
    → SortedMatch spec.value vs
    → ChoosesValid spec (first_of vs)
unfolding validate_locked_or_resolved
first_of-ChoosesValid spec none h = tt
first_of-ChoosesValid spec (some []) h = tt
first_of-ChoosesValid spec (some ((v, t) ∷ vs)) h = ground (arith, h.0)

locked-ChoosesValid :
    (spec : DependencySpec) (o : Option Text) → ChoosesValid spec (select_locked spec o)
locked-ChoosesValid spec none = tt
locked-ChoosesValid spec (some v) = by_test (validate_locked_or_resolved spec v) refl
  where
    by_test :
        (b : Bool)
        → validate_locked_or_resolved spec v ≡ b
        → ChoosesValid spec (if b then chosen v else unsatisfied)
    by_test true e = e
    by_test false e = tt

select-ChoosesValid :
    (spec : DependencySpec) (cs : List Text) (locked : Option (Option Text))
    → ChoosesValid spec (select_registry_package spec cs locked)
unfolding select_registry_package
select-ChoosesValid spec [] locked = tt
select-ChoosesValid spec (c ∷ cs) none =
    first_of-ChoosesValid spec _ (sort-SortedMatch spec.value (c ∷ cs))
select-ChoosesValid spec (c ∷ cs) (some o) = locked-ChoosesValid spec o

selection-Satisfies :
    (s : Sources) (spec : DependencySpec) (x : Selection)
    → ChoosesValid spec x
    → Satisfies spec (from_selection s spec x)
selection-Satisfies s spec (chosen v) h = h
selection-Satisfies s spec not_available h = tt
selection-Satisfies s spec no_match h = tt
selection-Satisfies s spec bad_version h = tt
selection-Satisfies s spec locked_unavailable h = tt
selection-Satisfies s spec unsatisfied h = tt

registry-Satisfies :
    (s : Sources) (spec : DependencySpec) (o : Option LockedPackage)
    → Satisfies spec (from_registry_with s spec o)
registry-Satisfies s spec none = selection-Satisfies s spec _ (select-ChoosesValid spec _ none)
registry-Satisfies s spec (some l) = by_test (validate_locked_or_resolved spec l.version)
  where
    by_test :
        (b : Bool)
        → Satisfies spec (
            if b
            then from_selection s spec (
                select_registry_package spec
                  (s.available_versions spec.name)
                  (some (s.registry_get spec.name l.version)))
            else none)
    by_test true = selection-Satisfies s spec _ (select-ChoosesValid spec _ _)
    by_test false = tt

unlimited :
    (spec : DependencySpec) (v : Text)
    → spec.is_version ≡ false
    → validate_locked_or_resolved spec v ≡ true
unfolding validate_locked_or_resolved
unlimited spec v e = ground (arith, e)

-- What is fetched for a dependency without a registry client satisfies the requirement that asks
-- for it, whether it is locked or not.
pub fetched-Satisfies :
    (s : Sources) (root : ℕ) (spec : DependencySpec)
    → Satisfies spec (resolve_single_dependency s none root spec)
unfolding resolve_single_dependency
fetched-Satisfies s root spec = by_kind spec.is_version refl
  where
    on_path : spec.is_version ≡ false → (o : Option (Text × ℕ)) → Satisfies spec (from_path spec o)
    on_path e none = tt
    on_path e (some (v, u)) = unlimited spec v e

    by_kind :
        (b : Bool)
        → spec.is_version ≡ b
        → Satisfies spec (
            if b
            then version_from s none spec
            else from_path spec (s.load_project (s.resolve_path root spec.value)))
    by_kind true e = registry-Satisfies s spec (s.locked spec.name)
    by_kind false e = on_path e (s.load_project (s.resolve_path root spec.value))

-- A package that was locked from a registry at a version which its requirement does not admit is
-- refused without a registry client, and fetched at that version with one. The client answers the
-- locked version with itself.
pub locked_version-unchecked :
    (s : Sources) (client : Client) (root : ℕ) (spec : DependencySpec) (l : LockedPackage)
    → spec.is_version ≡ true
    → s.locked spec.name ≡ some l
    → l.from_registry ≡ true
    → validate_locked_or_resolved spec l.version ≡ false
    → client spec.name l.version ≡ some l.version
    → (resolve_single_dependency s none root spec ≡ none)
      × (resolve_single_dependency s (some client) root spec
          ≡ some (package_at spec (λ u. s.staging_path spec.name) l.version))
unfolding resolve_single_dependency
locked_version-unchecked s client root spec l v k r bad found = (
  on_version none
      ∙ ap (from_registry_with s spec) k
      ∙ ap
          (λ b.
            if b
            then from_selection s spec (
                select_registry_package spec (s.available_versions spec.name)
                  (some (s.registry_get spec.name l.version)))
            else none)
          bad,
  on_version (some client)
      ∙ ap (λ o. from_client s spec (client spec.name (constraint spec o))) k
      ∙ ap (λ b. from_client s spec (client spec.name (if b then l.version else spec.value))) r
      ∙ ap (from_client s spec) found,
)
  where
    on_version :
        (c : Option Client)
        → (if spec.is_version
            then version_from s c spec
            else from_path spec (s.load_project (s.resolve_path root spec.value)))
          ≡ version_from s c spec
    on_version c =
        ap
          (λ b.
            if b
            then version_from s c spec
            else from_path spec (s.load_project (s.resolve_path root spec.value)))
          v
