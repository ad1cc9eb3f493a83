-- ===== src/Prelude/Lists.antt =====
-- Lists measured by native numbers, membership as a predicate by recursion, and duplicates.
use Prim.Native.Nat.{ℕ, zero, suc, ◌+◌}
use mathlib.Core.Path.{◌≡◌, refl, ap, sym, ◌∙◌}
use mathlib.Core.Logic.{◌⊎◌, inl, inr, ◌↔◌}
use mathlib.Core.Bool.{Bool, true}
use mathlib.Core.List.{List, [], ◌∷◌, ◌++◌, map}
use native.Mathlib.Omega.{arith}
use cloudvelo.Prelude.Tests.{if◌then◌else◌}

module _ {ℓ} {A : Type ℓ} where
  abbrev pub length : List A → ℕ
  length [] = 0
  length (x ∷ xs) = suc (length xs)

  abbrev pub take : ℕ → List A → List A
  take zero xs = []
  take (suc n) [] = []
  take (suc n) (x ∷ xs) = x ∷ take n xs

  abbrev pub drop : ℕ → List A → List A
  drop zero xs = xs
  drop (suc n) [] = []
  drop (suc n) (x ∷ xs) = drop n xs

  -- The elements that pass a test, in order.
  abbrev pub filter : (A → Bool) → List A → List A
  filter p [] = []
  filter p (x ∷ xs) = let rest = filter p xs in if p x then x ∷ rest else rest

  abbrev pub concat : List (List A) → List A
  concat [] = []
  concat (xs ∷ xss) = xs ++ concat xss

module _ {ℓ} {A : Type ℓ} where
  pub length-append : (xs ys : List A) → length (xs ++ ys) ≡ length xs + length ys
  length-append [] ys = omega arith
  length-append (x ∷ xs) ys = omega (arith, length-append xs ys)

  pub take-append-drop : (n : ℕ) (xs : List A) → take n xs ++ drop n xs ≡ xs
  take-append-drop zero xs = refl
  take-append-drop (suc n) [] = refl
  take-append-drop (suc n) (x ∷ xs) = ap (◌∷◌ x) (take-append-drop n xs)

  pub concat-append : (xss yss : List (List A)) → concat (xss ++ yss) ≡ concat xss ++ concat yss
  concat-append [] yss = refl
  concat-append (xs ∷ xss) yss =
      ap (◌++◌ xs) (concat-append xss yss) ∙ sym (mathlib.Core.List.append_assoc xs _ _)

  -- Every element satisfies `P`.
  abbrev pub All {κ} : (A → Type κ) → List A → Type κ
  All P [] = Unit
  All P (x ∷ xs) = P x × All P xs

module _ {ℓ κ} {A : Type ℓ} (P : A → Type κ) where
  pub All-append : (front back : List A) → All P front → All P back → All P (front ++ back)
  All-append [] back of_front of_back = of_back
  All-append (x ∷ front) back (of_x, of_front) of_back =
      (of_x, All-append front back of_front of_back)

-- Membership.
abbrev pub In : {A : Type 0} → A → List A → Type 0
In a [] = ⊥
In a (x ∷ xs) = (a ≡ x) ⊎ In a xs

-- No element occurs twice.
abbrev pub NoDup : {A : Type 0} → List A → Type 0
NoDup [] = Unit
NoDup (x ∷ xs) = (¬ In x xs) × NoDup xs

module _ {A : Type 0} where
  pub In-append : (a : A) (xs ys : List A) → In a (xs ++ ys) ↔ (In a xs ⊎ In a ys)
  In-append a [] ys = (inr, elim [ inl e ↦ absurd e | inr h ↦ h ])
  In-append a (x ∷ xs) ys = let (f, g) = In-append a xs ys in (ground (arith, f), ground (arith, g))

  pub All-In {κ} : (P : A → Type κ) {a : A} (xs : List A) → All P xs → In a xs → P a
  All-In P [] h m = absurd m
  All-In P (x ∷ xs) h (inl e) = mathlib.Core.Path.subst P (sym e) h.0
  All-In P (x ∷ xs) h (inr m) = All-In P xs h.1 m

  pub In-filter :
      (p : A → Bool) (a : A) (xs : List A) → In a (filter p xs) ↔ (In a xs × (p a ≡ true))
  In-filter p a [] = (absurd, λ h. h.0)
  In-filter p a (x ∷ xs) =
      (ground (arith, (In-filter p a xs).0), ground (arith, (In-filter p a xs).1))

  pub In-snoc : (a x : A) (xs : List A) → In a (xs ++ x ∷ []) ↔ (In a xs ⊎ (a ≡ x))
  In-snoc a x xs =
      let (f, g) = In-append a xs (x ∷ []) in
      (
        λ h. elim (f h) [ inl m ↦ inl m | inr e ↦ elim e [ inl q ↦ inr q | inr n ↦ absurd n ] ],
        λ h. g (elim h [ inl m ↦ inl m | inr q ↦ inr (inl q) ]),
      )

  pub NoDup-snoc : (x : A) (xs : List A) → NoDup xs → ¬ In x xs → NoDup (xs ++ x ∷ [])
  NoDup-snoc x [] d n = (λ m. m, tt)
  NoDup-snoc x (y ∷ ys) d n = (
    λ m. elim ((In-snoc y x ys).0 m) [ inl m' ↦ d.0 m' | inr e ↦ n (inl (sym e)) ],
    NoDup-snoc x ys d.1 (λ m. n (inr m)),
  )

  pub NoDup-filter : (p : A → Bool) (xs : List A) → NoDup xs → NoDup (filter p xs)
  NoDup-filter p [] d = d
  NoDup-filter p (x ∷ xs) d =
      cloudvelo.Prelude.Tests.if_elim NoDup (p x)
        (λ m. d.0 ((In-filter p x xs).0 m).0, NoDup-filter p xs d.1) (NoDup-filter p xs d.1)

module _ {A B : Type 0} where
  pub map-append : (f : A → B) (xs ys : List A) → map f (xs ++ ys) ≡ map f xs ++ map f ys
  map-append f [] ys = refl
  map-append f (x ∷ xs) ys = ap (◌∷◌ (f x)) (map-append f xs ys)
