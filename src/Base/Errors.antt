-- ===== src/Base/Errors.antt =====
-- Go's pairs of a value and an `error`, where the code reads the value only without an error.
-- An error is its text.
use Prim.Native.String.{String}
use mathlib.Core.Bool.{Bool}
use mathlib.Core.Path.{◌≡◌, refl}
use mathlib.Core.Logic.{◌⊎◌, inl, inr}
use text.Mathlib.Text.{find?}
use consul_k8s.Base.Tests.{is_some}

pub data Result {ℓ} (A : Type ℓ) : Type ℓ where
  ok : A → Result A
  err : String → Result A

-- `strings.Contains`. It stays shut in proofs.
unfoldable pub contains_text : String → String → Bool
contains_text s part = is_some (find? s part)

pub Result-cases {ℓ} :
    {A : Type ℓ} (r : Result A) → ((a : A) × (r ≡ ok a)) ⊎ ((e : String) × (r ≡ err e))
Result-cases (ok a) = inl (a, refl)
Result-cases (err e) = inr (e, refl)
