-- ===== src/Prelude/Dict.antt =====
-- Python's `dict` with text keys, as an association list.
use Prim.Native.String.{String}
use text.Mathlib.Text.{◌==◌}
use text.Mathlib.TextEquality.{eq_iff}
use text.Mathlib.TextPositions.{eq_refl}
use mathlib.Core.Path.{◌≡◌}
use mathlib.Core.Option.{Option, none, some}
use mathlib.Core.List.{List, [], ◌∷◌}
use native.Mathlib.Omega.{arith}
use nodus.Prelude.Tests.{if◌then◌else◌}

abbrev pub Dict {ℓ} : Type ℓ → Type ℓ
Dict V = List (String × V)

-- d.get(k)
unfoldable pub lookup {ℓ} : {V : Type ℓ} (key : String) → Dict V → Option V
lookup key ((name, value) ∷ rest) = if name == key then some value else lookup key rest
lookup key [] = none

-- d[k] = v: the entry keeps its place
unfoldable pub insert {ℓ} : {V : Type ℓ} (key : String) → V → Dict V → Dict V
insert key new ((name, old) ∷ rest) =
    if name == key then (key, new) ∷ rest else (name, old) ∷ insert key new rest
insert key new [] = (key, new) ∷ []

module _ {ℓ} {V : Type ℓ} (key other : String) (new : V) where
  pub lookup-insert :
      (d : Dict V)
      → lookup other (insert key new d) ≡ (if key == other then some new else lookup other d)
  unfolding insert lookup
  lookup-insert ((name, old) ∷ rest) =
      ground (arith, lookup-insert rest, eq_iff name other, eq_iff key other, eq_iff name key)
  lookup-insert [] = ground arith

pub lookup-insert_self {ℓ} :
    {V : Type ℓ} (key : String) (new : V) (d : Dict V) → lookup key (insert key new d) ≡ some new
lookup-insert_self key new d = simp (lookup-insert key key new d, eq_refl)
