-- ===== src/Protocol/Json/Fields.antt =====
-- The helpers of src/protocol/JsonPayload.cpp that read members, and that parse and dump.
use core_desk.Base.Int.{ℤ, pos, fits_int}
use core_desk.Base.{
  ℕ, ◌-◌, ◌^◌, Bool, true, false, not, String, Option, none, some, inl, inr, ltb, ◌++◌,
  if◌then◌else◌,
}
use core_desk.Common.{
  ErrorCode, Result, success, failure, ◌>>=◌, Text, text, invalid, VoidResult, void_success,
  void_failure, check,
}
use core_desk.Protocol.Json.{JsonLibrary, Parsed}

abbrev pub missing_or_wrong_type {ℓ} : {A : Type ℓ} → String → Result A
missing_or_wrong_type field = failure (invalid (text "missing or invalid field: " ++ text field))

abbrev pub too_large_field {ℓ} : {A : Type ℓ} → String → Result A
too_large_field field = failure (invalid (text "field is too large: " ++ text field))

abbrev pub out_of_range {ℓ} : {A : Type ℓ} → String → Result A
out_of_range field = failure (invalid (text "field is out of range: " ++ text field))

-- `it == json.end() || !it->is_...()`, and the value otherwise.
abbrev required {ℓ κ} : {J : Type ℓ} {A : Type κ} → Option J → (J → Option A) → String → Result A
required none read field = missing_or_wrong_type field
required (some j) read field = elim (read j) [
  | none ↦ missing_or_wrong_type field
  | some a ↦ success a
]

-- The checks of `required_u32`, `required_u16` and `required_size` on what `required_u64` gave.
abbrev at_most : ℕ → String → ℕ → Result ℕ
at_most max field value = if ltb max value then too_large_field field else success value

module _ (lib : JsonLibrary) where
  open lib use {Json}

  -- Whether `parse_json` lets an exception out: it catches `Json::parse_error` only. Each decoder calls
  -- it first, so that it throws where this holds.
  unfoldable pub throws : Text → Bool
  throws bytes = elim (lib.parse bytes) [
    | Parsed.parsed json ↦ false
    | Parsed.parse_error what ↦ false
    | Parsed.other_exception what ↦ true
  ]

  -- Where it throws, it has no result, and a handler does not look at the one of the model.
  unfoldable pub parse_json : Text → Result Json
  parse_json bytes = elim (lib.parse bytes) [
    | Parsed.parsed json ↦ success json
    | Parsed.parse_error what ↦ failure (record { code = ErrorCode.protocol_error; message = what })
    | Parsed.other_exception what ↦
        failure (record { code = ErrorCode.protocol_error; message = what })
  ]

  abbrev pub require_object : Json → VoidResult
  require_object json =
      if not (lib.is_object json)
      then void_failure (invalid (text "JSON payload must be an object"))
      else void_success

  unfoldable pub required_string : Json → String → Result Text
  required_string json field = required (lib.find json field) lib.as_string field

  unfoldable pub required_bool : Json → String → Result Bool
  required_bool json field = required (lib.find json field) lib.as_boolean field

  unfoldable pub required_u64 : Json → String → Result ℕ
  required_u64 json field = required (lib.find json field) lib.as_unsigned field

  unfoldable pub required_u32 : Json → String → Result ℕ
  unfolding required_u64
  required_u32 json field = required_u64 json field >>= at_most (2 ^ 32 - 1) field

  unfoldable pub required_u16 : Json → String → Result ℕ
  unfolding required_u64
  required_u16 json field = required_u64 json field >>= at_most (2 ^ 16 - 1) field

  unfoldable pub required_size : Json → String → Result ℕ
  unfolding required_u64
  required_size json field = required_u64 json field >>= at_most (2 ^ 64 - 1) field

  -- The value of an integer member: `as_integer`, after the two tests of its kind.
  narrow_unsigned : ℕ → String → ℕ → Result ℤ
  narrow_unsigned max field value =
      if ltb max value then out_of_range field else success (pos value)

  unfoldable pub required_i64 : Json → String → Result ℤ
  unfolding narrow_unsigned
  required_i64 json field = elim (lib.find json field) [
    | none ↦ missing_or_wrong_type field
    | some it ↦ elim (lib.as_integer it) [
      | none ↦ missing_or_wrong_type field
      | some z ↦ elim (lib.as_unsigned it) [
        | some value ↦ narrow_unsigned (2 ^ 63 - 1) field value
        | none ↦ success z
      ]
    ]
  ]

  unfoldable pub required_int : Json → String → Result ℤ
  unfolding narrow_unsigned
  required_int json field = elim (lib.find json field) [
    | none ↦ missing_or_wrong_type field
    | some it ↦ elim (lib.as_integer it) [
      | none ↦ missing_or_wrong_type field
      | some z ↦ elim (lib.as_unsigned it) [
        | some value ↦ narrow_unsigned (2 ^ 31 - 1) field value
        | none ↦ if not (fits_int z) then out_of_range field else success z
      ]
    ]
  ]

  unfoldable pub dump_json : Json → Result Text
  dump_json json = elim (lib.dump json) [
    | inl bytes ↦ success bytes
    | inr what ↦ failure (record { code = ErrorCode.internal_error; message = what })
  ]

  unfoldable pub decode_payload {ℓ} :
      {Payload : Type ℓ} → Text → (Json → Result Payload) → Result Payload
  decode_payload bytes fn = do parsed ← parse_json bytes; check (require_object parsed) (fn parsed)
