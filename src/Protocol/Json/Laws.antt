-- ===== src/Protocol/Json/Laws.antt =====
-- What the helpers give on an object that the library was given.
use core_desk.Base.Int.{ℤ, pos, negsuc, fits_int, fits_i64}
use core_desk.Base.{
  ℕ, ◌<◌, ◌^◌, ◌≡◌, Bool, true, false, String, some, inl, List, le→ltb, arith, ◌-◌,
}
use core_desk.Common.{Result, success, Text, check, check-eq-success, >>=-eq-success}
use core_desk.Protocol.Json.{JsonLibrary, JsonLaws, member}
use core_desk.Protocol.Json.Fields.{
  throws, parse_json, require_object, required_string, required_bool, required_u64, required_u32,
  required_u16, required_size, required_i64, required_int, dump_json, decode_payload,
}

module _ {lib : JsonLibrary} (law : JsonLaws lib) where
  pub dump_json-eq-success :
      (j : lib.Json) (b : Text) → dump_json lib j ≡ success b → lib.dump j ≡ inl b
  unfolding dump_json
  dump_json-eq-success j b h = ground arith

  -- A payload that was dumped is decoded from the object that it was dumped from.
  pub decode_payload-dump {ℓ} :
      {P : Type ℓ} (m : List (String × lib.Json)) (b : Text) (fn : lib.Json → Result P)
      → dump_json lib (lib.object m) ≡ success b
      → decode_payload lib b fn ≡ fn (lib.object m)
  unfolding decode_payload parse_json check
  decode_payload-dump m b fn h =
      let p = law.parse-dump (lib.object m) b (dump_json-eq-success (lib.object m) b h) in
      ground (arith, p, law.is_object-object m)

  pub required_string-object :
      (m : List (String × lib.Json)) (k : String) (s : Text)
      → member k m ≡ some (lib.string s)
      → required_string lib (lib.object m) k ≡ success s
  unfolding required_string
  required_string-object m k s e = ground (arith, law.find-object m k, law.as_string-string s)

  pub required_bool-object :
      (m : List (String × lib.Json)) (k : String) (s : Bool)
      → member k m ≡ some (lib.boolean s)
      → required_bool lib (lib.object m) k ≡ success s
  unfolding required_bool
  required_bool-object m k s e = ground (arith, law.find-object m k, law.as_boolean-boolean s)

  pub required_u64-object :
      (m : List (String × lib.Json)) (k : String) (n : ℕ)
      → member k m ≡ some (lib.integer (pos n))
      → required_u64 lib (lib.object m) k ≡ success n
  unfolding required_u64
  required_u64-object m k n e = ground (arith, law.find-object m k, law.as_unsigned-pos n)

  pub required_u32-object :
      (m : List (String × lib.Json)) (k : String) (n : ℕ)
      → member k m ≡ some (lib.integer (pos n))
      → n < 2 ^ 32
      → required_u32 lib (lib.object m) k ≡ success n
  unfolding required_u32
  required_u32-object m k n e h =
      rw (required_u64-object m k n e, le→ltb (2 ^ 32 - 1) n (omega arith))

  pub required_u16-object :
      (m : List (String × lib.Json)) (k : String) (n : ℕ)
      → member k m ≡ some (lib.integer (pos n))
      → n < 2 ^ 16
      → required_u16 lib (lib.object m) k ≡ success n
  unfolding required_u16
  required_u16-object m k n e h =
      rw (required_u64-object m k n e, le→ltb (2 ^ 16 - 1) n (omega arith))

  pub required_size-object :
      (m : List (String × lib.Json)) (k : String) (n : ℕ)
      → member k m ≡ some (lib.integer (pos n))
      → n < 2 ^ 64
      → required_size lib (lib.object m) k ≡ success n
  unfolding required_size
  required_size-object m k n e h =
      rw (required_u64-object m k n e, le→ltb (2 ^ 64 - 1) n (omega arith))

  pub required_i64-object :
      (m : List (String × lib.Json)) (k : String) (z : ℤ)
      → member k m ≡ some (lib.integer z)
      → fits_i64 z ≡ true
      → required_i64 lib (lib.object m) k ≡ success z
  unfolding required_i64
  required_i64-object m k (pos n) e h =
      ground (arith, law.find-object m k, law.as_integer-integer (pos n), law.as_unsigned-pos n)
  required_i64-object m k (negsuc n) e h = rw (
    law.find-object m k,
    e,
    required_i64,
    law.as_integer-integer (negsuc n),
    law.as_unsigned-negsuc n,
  )

  pub required_int-object :
      (m : List (String × lib.Json)) (k : String) (z : ℤ)
      → member k m ≡ some (lib.integer z)
      → fits_int z ≡ true
      → required_int lib (lib.object m) k ≡ success z
  unfolding required_int
  required_int-object m k (pos n) e h =
      ground (arith, law.find-object m k, law.as_integer-integer (pos n), law.as_unsigned-pos n)
  required_int-object m k (negsuc n) e h =
      ground
        (arith, law.find-object m k, law.as_integer-integer (negsuc n), law.as_unsigned-negsuc n)

-- A payload that was decoded was read from some JSON object.
pub decode_payload-eq-success {ℓ} :
    {P : Type ℓ} (lib : JsonLibrary) (b : Text) (fn : lib.Json → Result P) {p : P}
    → decode_payload lib b fn ≡ success p
    → (j : lib.Json) × (fn j ≡ success p)
unfolding decode_payload
decode_payload-eq-success lib b fn h =
    let (j, _, h1) = >>=-eq-success (parse_json lib b) _ h in
    (j, (check-eq-success (require_object lib j) (fn j) h1).1)

parse_json-throws :
    (lib : JsonLibrary) (b : Text) {j : lib.Json}
    → parse_json lib b ≡ success j
    → throws lib b ≡ false
unfolding parse_json throws
parse_json-throws lib b h = ground (arith, h)

-- A payload that was decoded was parsed without an exception.
pub decode_payload-throws {ℓ} :
    {P : Type ℓ} (lib : JsonLibrary) (b : Text) (fn : lib.Json → Result P) {p : P}
    → decode_payload lib b fn ≡ success p
    → throws lib b ≡ false
unfolding decode_payload
decode_payload-throws lib b fn h =
    let (j, parsed, _) = >>=-eq-success (parse_json lib b) _ h in parse_json-throws lib b parsed
