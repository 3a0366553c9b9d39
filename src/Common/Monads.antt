-- ===== src/Common/Monads.antt =====
-- Go results `(value, error)` as `Result`, an error being its text, and code that acts on a world
-- as functions that pass the world on.
use Prim.Native.String.{String}
use mathlib.Core.Path.{◌≡◌, refl}
use mathlib.Core.Logic.{◌⊎◌, inl, inr}

pub data Result {ℓ} (A : Type ℓ) : Type ℓ where
  ok : A → Result A
  err : String → Result A

pub Result-cases {ℓ} :
    {A : Type ℓ} (r : Result A) → ((e : String) × (r ≡ err e)) ⊎ ((a : A) × (r ≡ ok a))
Result-cases (ok a) = inr (a, refl)
Result-cases (err e) = inl (e, refl)

-- An action that returns an `A`. What it did before an error stays done.
abbrev pub Act {ℓ} : Type ℓ → Type ℓ → Type ℓ
Act W A = W → A × W

infixl 5 ◌>>=◌ ◌>>◌
abbrev pub ◌>>=◌ {ℓ} : {W A B : Type ℓ} → Act W A → (A → Act W B) → Act W B
◌>>=◌ m f w = f (m w).0 (m w).1

abbrev pub ◌>>◌ {ℓ} : {W A B : Type ℓ} → Act W A → Act W B → Act W B
◌>>◌ m n w = n (m w).1

abbrev pub pure {ℓ} : {W A : Type ℓ} → A → Act W A
pure a w = (a, w)
