-- ===== src/Prelude/Tests.antt =====
-- Boolean tests on numbers and texts, the conditional, and case splits that keep the equation.
use Prim.Native.Nat.{ℕ, ◌≤◌, ◌<◌, compare, Ordering}
use Prim.Native.String.{String}
use text.Mathlib.Text.{◌==◌ as str_eq}
use mathlib.Core.Path.{◌≡◌, refl}
use mathlib.Core.Logic.{◌⊎◌, inl, inr}
use mathlib.Core.Bool.{Bool, true, false}
use mathlib.Core.Option.{Option, none, some}
use native.Mathlib.Omega.{arith}

abbrev pub ltb : ℕ → ℕ → Bool
ltb a b = elim (compare a b) [ Ordering.lt ↦ true | _ ↦ false ]

abbrev pub leb : ℕ → ℕ → Bool
leb a b = elim (compare a b) [ Ordering.gt ↦ false | _ ↦ true ]

abbrev pub nat_eq : ℕ → ℕ → Bool
nat_eq a b = elim (compare a b) [ Ordering.eq ↦ true | _ ↦ false ]

-- Go's `==` on strings.
infix 50 ◌==◌
abbrev pub ◌==◌ : String → String → Bool
◌==◌ = str_eq

infix 1 if◌then◌else◌
abbrev pub if◌then◌else◌ {ℓ} : {A : Type ℓ} → Bool → A → A → A
if true then x else y = x
if false then x else y = y

pub ltb→lt : (a b : ℕ) → ltb a b ≡ true → a < b
ltb→lt a b h = ground arith

pub lt→ltb : (a b : ℕ) → a < b → ltb a b ≡ true
lt→ltb a b h = ground arith

pub leb→le : (a b : ℕ) → leb a b ≡ true → a ≤ b
leb→le a b h = ground arith

pub le→leb : (a b : ℕ) → a ≤ b → leb a b ≡ true
le→leb a b h = ground arith

pub Bool-cases : (b : Bool) → (b ≡ true) ⊎ (b ≡ false)
Bool-cases true = inl refl
Bool-cases false = inr refl

pub Option-cases {ℓ} : {A : Type ℓ} (o : Option A) → (o ≡ none) ⊎ ((a : A) × (o ≡ some a))
Option-cases none = inl refl
Option-cases (some a) = inr (a, refl)

abbrev pub is_some {ℓ} : {A : Type ℓ} → Option A → Bool
is_some none = false
is_some (some a) = true

module _ {ℓ} {A : Type ℓ} where
  pub if_true : {b : Bool} {x : A} (y : A) → b ≡ true → (if b then x else y) ≡ x
  if_true {b = true} y e = refl
  if_true {b = false} y e = cc e

  pub if_false : {b : Bool} (x : A) {y : A} → b ≡ false → (if b then x else y) ≡ y
  if_false {b = true} x e = cc e
  if_false {b = false} x e = refl

  pub if_elim {κ} : (P : A → Type κ) (b : Bool) {x y : A} → P x → P y → P (if b then x else y)
  if_elim P true p q = p
  if_elim P false p q = q

  -- The same, where what holds in a branch uses the test.
  pub if_cases {κ} :
      (P : A → Type κ) (b : Bool) {x y : A}
      → (b ≡ true → P x)
      → (b ≡ false → P y)
      → P (if b then x else y)
  if_cases P true p q = p refl
  if_cases P false p q = q refl

module _ {ℓ κ} {A : Type ℓ} {B : Type κ} where
  -- A split on an option, and one that is known.
  pub option_elim {μ} :
      (P : A → Type μ) (o : Option B) {x : A} {f : B → A}
      → P x
      → ((b : B) → o ≡ some b → P (f b))
      → P (elim o [ none ↦ x | some b ↦ f b ])
  option_elim P none p q = p
  option_elim P (some b) p q = q b refl

  -- The same, where what holds of `none` uses the equation too.
  pub option_split {μ} :
      (P : A → Type μ) (o : Option B) {x : A} {f : B → A}
      → (o ≡ none → P x)
      → ((b : B) → o ≡ some b → P (f b))
      → P (elim o [ none ↦ x | some b ↦ f b ])
  option_split P none p q = p refl
  option_split P (some b) p q = q b refl

  pub some_elim {μ} :
      (P : A → Type μ) (o : Option B) (x : A) (f : B → A) (b : B)
      → o ≡ some b
      → P (f b)
      → P (elim o [ none ↦ x | some c ↦ f c ])
  some_elim P none x f b e p = cc e
  some_elim P (some c) x f b e p = mathlib.Core.Path.subst (λ d. P (f d)) (cc e) p
