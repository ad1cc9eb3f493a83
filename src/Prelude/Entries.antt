-- ===== src/Prelude/Entries.antt =====
-- A map's entries against its lookups: each key of a Go map stands once.
use Prim.Native.String.{String}
use mathlib.Core.Path.{◌≡◌, sym, ap}
use mathlib.Core.Logic.{◌⊎◌, inl, inr}
use mathlib.Core.Option.{some}
use mathlib.Core.List.{[], ◌∷◌}
use text.Mathlib.TextEquality.{eq_iff}
use text.Mathlib.TextPositions.{eq_refl}
use cloudvelo.Prelude.Tests.{◌==◌, Bool-cases}
use cloudvelo.Prelude.Lists.{In, NoDup}
use cloudvelo.Prelude.Maps.{Assoc, keys, lookup, insert}

module _ {V : Type 0} where
  pub In-keys : (k : String) (v : V) (m : Assoc V) → In (k, v) m → In k (keys m)
  In-keys k v [] i = i
  In-keys k v ((j, w) ∷ m) (inl e) = inl (ap (λ (x : String × V). x.0) e)
  In-keys k v ((j, w) ∷ m) (inr i) = inr (In-keys k v m i)

  pub In-of-lookup : (k : String) {v : V} (m : Assoc V) → lookup k m ≡ some v → In (k, v) m
  unfolding lookup
  In-of-lookup k [] e = cc
  In-of-lookup k ((j, w) ∷ m) e = elim (Bool-cases (j == k)) [
    | inl same ↦ inl (cc ((eq_iff j k).0 same, rw same at e))
    | inr ne ↦ inr (In-of-lookup k m (rw ne at e))
  ]

  pub lookup-of-In :
      (k : String) {v : V} (m : Assoc V) → NoDup (keys m) → In (k, v) m → lookup k m ≡ some v
  unfolding lookup
  lookup-of-In k {v} [] d i = absurd i
  lookup-of-In k {v} ((j, w) ∷ m) d (inl e) =
      let k-j : k ≡ j = ap (λ (x : String × V). x.0) e in
      rw (k-j, eq_refl j) (ap (λ (x : String × V). some x.1) (sym e))
  lookup-of-In k {v} ((j, w) ∷ m) d (inr i) = elim (Bool-cases (j == k)) [
    | inl same ↦ absurd (d.0 (rw ((eq_iff j k).0 same) (In-keys k v m i)))
    | inr ne ↦ rw ne (lookup-of-In k m d.1 i)
  ]

  In-keys-insert :
      (a k : String) (v : V) (m : Assoc V) → In a (keys (insert k v m)) → (a ≡ k) ⊎ In a (keys m)
  unfolding insert
  In-keys-insert a k v [] (inl e) = inl e
  In-keys-insert a k v [] (inr i) = absurd i
  In-keys-insert a k v ((j, w) ∷ m) i = elim (Bool-cases (j == k)) [
    | inl same ↦ inr (rw same at i)
    | inr ne ↦ elim (let i' : In a (j ∷ keys (insert k v m)) = rw ne at i in i') [
      | inl e ↦ inr (inl e)
      | inr i'' ↦ elim (In-keys-insert a k v m i'') [ inl e ↦ inl e | inr r ↦ inr (inr r) ]
    ]
  ]

  pub keys-insert-NoDup :
      (k : String) (v : V) (m : Assoc V) → NoDup (keys m) → NoDup (keys (insert k v m))
  unfolding insert
  keys-insert-NoDup k v [] d = (λ i. i, tt)
  keys-insert-NoDup k v ((j, w) ∷ m) d = elim (Bool-cases (j == k)) [
    | inl same ↦ rw same d
    | inr ne ↦ rw ne (
      λ i. elim (In-keys-insert j k v m i) [ inl e ↦ cc (ne, (eq_iff j k).1 e) | inr r ↦ d.0 r ],
      keys-insert-NoDup k v m d.1,
    )
  ]
