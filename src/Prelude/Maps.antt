-- ===== src/Prelude/Maps.antt =====
-- Go's `map[string]V` as an association list. Writing a key that is present keeps its place.
use Prim.Native.String.{String}
use mathlib.Core.Path.{◌≡◌, refl}
use mathlib.Core.Option.{Option, none, some}
use mathlib.Core.List.{List, [], ◌∷◌, map}
use native.Mathlib.Omega.{arith}
use text.Mathlib.TextEquality.{eq_iff}
use text.Mathlib.TextPositions.{eq_refl}
use cloudvelo.Prelude.Tests.{◌==◌, if◌then◌else◌}

pub ==-nonempty : (s : String) → ¬ (s ≡ "") → (s == "") ≡ mathlib.Core.Bool.false
==-nonempty s h = ground (arith, eq_iff s "")

abbrev pub Assoc {ℓ} : Type ℓ → Type ℓ
Assoc V = List (String × V)

module _ {ℓ} {V : Type ℓ} where
  -- m[key]
  unfoldable pub lookup : String → Assoc V → Option V
  lookup key [] = none
  lookup key ((other, found) ∷ rest) = if other == key then some found else lookup key rest

  -- m[key] = value
  unfoldable pub insert : String → V → Assoc V → Assoc V
  insert key value [] = (key, value) ∷ []
  insert key value ((other, old) ∷ rest) =
      if other == key then (other, value) ∷ rest else (other, old) ∷ insert key value rest

  -- `v, _ := m[key]`: the zero value where the key is missing.
  unfoldable pub lookup_or : V → String → Assoc V → V
  lookup_or z key m = elim (lookup key m) [ none ↦ z | some v ↦ v ]

  pub lookup-insert :
      (key asked : String) (value : V) (m : Assoc V)
      → lookup asked (insert key value m) ≡ (if key == asked then some value else lookup asked m)
  unfolding lookup insert
  lookup-insert key asked value [] = refl
  lookup-insert key asked value ((other, old) ∷ rest) = ground (
    arith,
    lookup-insert key asked value rest,
    eq_iff other asked,
    eq_iff other key,
    eq_iff key asked,
  )

  pub lookup-insert_self :
      (key : String) (value : V) (m : Assoc V) → lookup key (insert key value m) ≡ some value
  lookup-insert_self key value m = simp (lookup-insert, eq_refl)

abbrev pub keys {ℓ} : {V : Type ℓ} → Assoc V → List String
keys = map (λ e. e.0)

module _ {ℓ} {V : Type ℓ} where
  pub lookup_or-none : (z : V) (k : String) (m : Assoc V) → lookup k m ≡ none → lookup_or z k m ≡ z
  unfolding lookup_or
  lookup_or-none z k m e = rw (e, lookup_or)

  pub lookup_or-some :
      (z : V) (k : String) (m : Assoc V) {v : V} → lookup k m ≡ some v → lookup_or z k m ≡ v
  unfolding lookup_or
  lookup_or-some z k m e = rw (e, lookup_or)

  pub lookup-nil : (k : String) → lookup {V = V} k [] ≡ none
  unfolding lookup
  lookup-nil k = refl
