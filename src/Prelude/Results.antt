-- ===== src/Prelude/Results.antt =====
-- What Python's exceptions become: a result with the exception as a value. The exceptions of
-- rsocket/exceptions.py are constructors, and so are those of the language that the code meets.
use Prim.Native.Nat.{ℕ}
use mathlib.Core.Path.{◌≡◌, refl}
use mathlib.Core.Logic.{◌⊎◌, inl, inr}
use mathlib.Core.List.{List}
use mathlib.Core.Bool.{Bool, true, false}

-- `ErrorCode` of rsocket/error_codes.py.
pub data ErrorCode : Type 0 where
  invalid_setup unsupported_setup rejected_setup rejected_resume : ErrorCode
  connection_error connection_error_no_retry application_error : ErrorCode
  rejected canceled invalid reserved : ErrorCode

-- The text of a protocol error is its `data`; the text of other exceptions is not modelled.
pub data Error : Type 0 where
  parse_error : Error
  protocol_error : ErrorCode → List ℕ → Error
  stream_id_in_use : ℕ → Error
  unknown_mimetype : ℕ → Error
  unknown_auth_type : ℕ → Error
  mimetype_too_long : List ℕ → Error
  unknown_frame_type : ℕ → Error
  fragment_different_type : Error
  stream_allocation_failure : Error
  rsocket_error : Error
  transport_error : Error
  rsocket_value_error : Error
  empty_route plain_exception type_error unicode_decode_error : Error
  unknown_route : List ℕ → Error
  index_error invalid_state_error struct_error value_error attribute_error key_error runtime_error
        queue_full :
      Error

pub data Result {ℓ} (A : Type ℓ) : Type ℓ where
  ok : A → Result A
  err : Error → Result A

infixl 5 ◌>>=◌ ◌>>◌
abbrev pub ◌>>=◌ {ℓ κ} : {A : Type ℓ} {B : Type κ} → Result A → (A → Result B) → Result B
ok a >>= f = f a
err e >>= f = err e

abbrev pub ◌>>◌ {ℓ κ} : {A : Type ℓ} {B : Type κ} → Result A → Result B → Result B
m >> k = m >>= λ _. k

-- `if not test: raise e`
abbrev pub guard : Bool → Error → Result (Unit {0})
guard true e = ok tt
guard false e = err e

pub Result-cases {ℓ} :
    {A : Type ℓ} (r : Result A) → ((a : A) × (r ≡ ok a)) ⊎ ((e : Error) × (r ≡ err e))
Result-cases (ok a) = inl (a, refl)
Result-cases (err e) = inr (e, refl)
