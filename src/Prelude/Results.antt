-- ===== src/Prelude/Results.antt =====
-- Go's `(value, error)` returns: a value or an error's text.
use Prim.Native.String.{String}
use mathlib.Core.Path.{◌≡◌, refl, ap}
use mathlib.Core.Logic.{◌⊎◌, inl, inr}

pub data Result {ℓ} (A : Type ℓ) : Type ℓ where
  err : String → Result A
  ok : A → Result A

module _ {ℓ κ} {A : Type ℓ} {B : Type κ} where
  infixl 5 ◌>>=◌ ◌>>◌
  abbrev pub ◌>>=◌ : Result A → (A → Result B) → Result B
  err text >>= next = err text
  ok value >>= next = next value

  abbrev pub ◌>>◌ : Result A → Result B → Result B
  first >> second = first >>= λ _. second

  -- What a chain that succeeds went through.
  pub >>=-eq-ok :
      (first : Result A) (next : A → Result B) {b : B}
      → (first >>= next) ≡ ok b
      → (value : A) × (first ≡ ok value) × (next value ≡ ok b)
  >>=-eq-ok (err text) next h = cc
  >>=-eq-ok (ok value) next h = (value, refl, h)

pub Result-cases {ℓ} :
    {A : Type ℓ} (r : Result A) → ((a : A) × (r ≡ ok a)) ⊎ ((e : String) × (r ≡ err e))
Result-cases (err text) = inr (text, refl)
Result-cases (ok value) = inl (value, refl)

abbrev or_else {ℓ} : {A : Type ℓ} → A → Result A → A
or_else fallback (err text) = fallback
or_else fallback (ok value) = value

pub ok_injective {ℓ} : {A : Type ℓ} {a b : A} → ok a ≡ ok b → a ≡ b
ok_injective {a = a} p = ap (or_else a) p

module _ {ℓ κ} {A : Type ℓ} {B : Type κ} where
  -- A split on a result that keeps the equation.
  pub result_elim {μ} :
      (P : A → Type μ) (r : Result B) {f : String → A} {g : B → A}
      → ((e : String) → r ≡ err e → P (f e))
      → ((b : B) → r ≡ ok b → P (g b))
      → P (elim r [ err e ↦ f e | ok b ↦ g b ])
  result_elim P (err e) p q = p e refl
  result_elim P (ok b) p q = q b refl
