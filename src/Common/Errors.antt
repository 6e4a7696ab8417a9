-- ===== src/Common/Errors.antt =====
-- apps/api/src/lib/errors.ts: the errors that the API throws, as values of a result.
use Prim.Native.Nat.{ℕ}
use Prim.Native.String.{String}
use mathlib.Core.Path.{◌≡◌, refl}
use mathlib.Core.Logic.{◌⊎◌, inl, inr}
use mathlib.Core.Bool.{Bool, true, false}

pub data AppError : Type 0 where
  unauthorized forbidden not_found bad_request conflict validation plan_limit : String → AppError

-- The HTTP status of each constructor.
unfoldable pub status_code : AppError → ℕ
status_code (unauthorized m) = 401
status_code (forbidden m) = 403
status_code (not_found m) = 404
status_code (bad_request m) = 400
status_code (conflict m) = 409
status_code (validation m) = 422
status_code (plan_limit m) = 402

-- What a handler that may throw an error returns.
pub data Result {ℓ} (A : Type ℓ) : Type ℓ where
  err : AppError → Result A
  ok : A → Result A

pub Result-cases {ℓ} :
    {A : Type ℓ} (r : Result A) → ((a : A) × (r ≡ ok a)) ⊎ ((e : AppError) × (r ≡ err e))
Result-cases (ok a) = inl (a, refl)
Result-cases (err e) = inr (e, refl)

-- `if (b) throw e`
abbrev pub throw_if : Bool → AppError → Result (Unit {0})
throw_if false e = ok tt
throw_if true e = err e

infixl 5 ◌>>◌ ◌>>=◌
-- A step whose value is not used, and one whose value is.
abbrev pub ◌>>◌ {κ} : {B : Type κ} → Result (Unit {0}) → Result B → Result B
err thrown >> rest = err thrown
ok unit >> rest = rest

abbrev pub ◌>>=◌ {ℓ κ} : {A : Type ℓ} {B : Type κ} → Result A → (A → Result B) → Result B
err thrown >>= rest = err thrown
ok value >>= rest = rest value
