-- ===== src/Common.antt =====
-- include/coredesk/common: Error.h, Error.cpp, Result.h and the texts they carry.
use Prim.Native.Char.{code}
use core_desk.Base.{
  ◌≡◌, refl, ℕ, inl, inr, Bool-cases, Bool, true, false, List, [], ◌∷◌, String, if◌then◌else◌,
}

-- A `std::string` or a run of `std::byte`: its bytes.
abbrev pub Text : Type 0
Text = List ℕ

-- The bytes of an ASCII literal. Shut, so that a literal stays one word in the proofs.
unfoldable pub text : String → Text
text String.[] = []
text (String.◌∷◌ c s) = code c ∷ text s

pub data ErrorCode : Type 0 where
  ok_code invalid_argument path_not_found permission_denied busy cancelled : ErrorCode
  index_not_ready protocol_error payload_too_large connection_failed timeout : ErrorCode
  target_exists io_error hash_mismatch internal_error : ErrorCode

pub record Error : Type 0 where
  pub code : ErrorCode
  pub message : Text

-- `Result<T>`, a variant of a value and an error.
pub data Result {ℓ} (A : Type ℓ) : Type ℓ where
  success : A → Result A
  failure : Error → Result A

infixl 5 ◌>>=◌
abbrev pub ◌>>=◌ {ℓ κ} : {A : Type ℓ} {B : Type κ} → Result A → (A → Result B) → Result B
success a >>= f = f a
failure e >>= f = failure e

-- The parts of a chain of calls that succeeded.
pub >>=-eq-success {ℓ κ} :
    {A : Type ℓ} {B : Type κ} (first : Result A) (next : A → Result B) {final : B}
    → (first >>= next) ≡ success final
    → (mid : A) × (first ≡ success mid) × (next mid ≡ success final)
>>=-eq-success (failure e) next chain = absurd (cc)
>>=-eq-success (success mid) next chain = (mid, refl, chain)

pub success-injective {ℓ} : {A : Type ℓ} {a b : A} → success a ≡ success b → a ≡ b
success-injective h = cc

abbrev pub is_ok_code : ErrorCode → Bool
is_ok_code ErrorCode.ok_code = true
is_ok_code _ = false

-- `Result<void>`: an error record, whose code is `Ok` for a success.
pub record VoidResult : Type 0 where
  pub error : Error

-- `Result<void>::success()`, `Result<void>::failure(error)` and `ok()`.
abbrev pub void_success : VoidResult
void_success = record { error = record { code = ErrorCode.ok_code; message = [] } }

abbrev pub void_failure : Error → VoidResult
void_failure e = record { error = e }

abbrev pub void_ok : VoidResult → Bool
void_ok r = is_ok_code r.error.code

-- `if (!r.ok()) return failure(r.error());` before the rest of a function.
unfoldable pub check {ℓ} : {A : Type ℓ} → VoidResult → Result A → Result A
check r rest = if void_ok r then rest else failure r.error

pub check-ok {ℓ} : {A : Type ℓ} (r : VoidResult) {k : Result A} → void_ok r ≡ true → check r k ≡ k
unfolding check
check-ok r h = rw h

pub check-eq-success {ℓ} :
    {A : Type ℓ} (r : VoidResult) (k : Result A) {a : A}
    → check r k ≡ success a
    → (void_ok r ≡ true) × (k ≡ success a)
unfolding check
check-eq-success r k h = elim (Bool-cases (void_ok r)) [
  | inl e ↦ (e, rw e at h)
  | inr e ↦ absurd (let bad = rw e at h in cc)
]

-- `Error{ErrorCode::InvalidArgument, message}`.
abbrev pub invalid : Text → Error
invalid message = record { code = ErrorCode.invalid_argument; message = message }

-- `if (!condition) return failure({InvalidArgument, message});`, as the result that is checked.
unfoldable pub require : Bool → Text → VoidResult
require condition message = if condition then void_success else void_failure (invalid message)
