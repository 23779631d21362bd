-- ===== src/Errors.antt =====
-- Utils/Errors/ErrorOr.h: a value or an error, `TRY` as bind.
use Prim.Native.String.{String}
use matte_os.Base.{ℕ, Bool, true, false}

pub record Error : Type 0 where
  pub message : String
  pub code : ℕ

pub data ErrorOr {ℓ} (A : Type ℓ) : Type ℓ where
  value : A → ErrorOr A
  error : Error → ErrorOr A

abbrev pub create_from_string : String → Error
create_from_string message = record { message = message; code = 1 }

abbrev pub has_error {ℓ} : {A : Type ℓ} → ErrorOr A → Bool
has_error (value a) = false
has_error (error e) = true
