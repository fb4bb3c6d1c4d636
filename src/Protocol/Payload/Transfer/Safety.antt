-- ===== src/Protocol/Payload/Transfer/Safety.antt =====
-- What a decoded file offer is safe for: a receiver can use its name as a file name.
use core_desk.Base.{
  ℕ, ◌≤◌, ◌<◌, ◌≡◌, refl, subst, ◌≢◌, Bool, true, false, ◌⊎◌, [], ◌∷◌, ◌++◌, length, All, all_of,
  contains, arith,
}
use core_desk.Base.Texts.{contains_byte-eq_false, contains-append}
use core_desk.Common.{
  success, Text, void_ok, require, check-eq-success, >>=-eq-success, success-injective,
}
use core_desk.Protocol.Json.{JsonLibrary}
use core_desk.Protocol.Json.Laws.{decode_payload-eq-success}
use core_desk.Protocol.Json.Fields.{required_string, required_u64}
use core_desk.Protocol.Payload.Checks.{
  max_file_chunk_data_size, is_lower_hex_digit, is_lower_hex, is_safe_transfer_file_name,
  validate_transfer_id, validate_file_name, validate_chunk_size, validate_sha256,
}
use core_desk.Protocol.Payload.Transfer.{FileOfferPayload, decode_file_offer_payload}

-- A name that stays in its directory.
pub record StaysInside (name : Text) : Type 0 where
  pub named : name ≢ []
  pub no_slash : All (λ c. c ≢ b'/') name
  pub no_backslash : All (λ c. c ≢ b'\\') name
  pub no_parent : (pre post : Text) → name ≢ pre ++ ((b'.' ∷ b'.' ∷ []) ++ post)

-- A lower-case hexadecimal text of a given length.
pub record IsHex (s : Text) (size : ℕ) : Type 0 where
  pub exact : length s ≡ size
  pub digits : All (λ c. ((b'0' ≤ c) × (c ≤ b'9')) ⊎ ((b'a' ≤ c) × (c ≤ b'f'))) s

is_safe-StaysInside : (name : Text) → is_safe_transfer_file_name name ≡ true → StaysInside name
unfolding is_safe_transfer_file_name
is_safe-StaysInside name h = record {
  named = λ e. let bad = subst (λ n. is_safe_transfer_file_name n ≡ true) e h in cc;
  no_slash = contains_byte-eq_false name b'/' (ground arith);
  no_backslash = contains_byte-eq_false name b'\\' (ground arith);
  no_parent = λ pre post e.
      let f : contains name (b'.' ∷ b'.' ∷ []) ≡ false = ground arith in
      let t = contains-append pre (b'.' ∷ b'.' ∷ []) post in
      let bad : contains name (b'.' ∷ b'.' ∷ []) ≡ true = rw e t in cc;
}

all_of-hex :
    (s : Text)
    → all_of is_lower_hex_digit s ≡ true
    → All (λ c. ((b'0' ≤ c) × (c ≤ b'9')) ⊎ ((b'a' ≤ c) × (c ≤ b'f'))) s
all_of-hex [] h = tt
all_of-hex (c ∷ s) h = (ground arith, all_of-hex s (ground arith))

is_lower_hex-IsHex : (s : Text) (size : ℕ) → is_lower_hex s size ≡ true → IsHex s size
unfolding is_lower_hex
is_lower_hex-IsHex s size h = record { exact = ground arith; digits = all_of-hex s (ground arith) }

require-ok : (c : Bool) (m : Text) → void_ok (require c m) ≡ true → c ≡ true
unfolding require
require-ok true m h = refl
require-ok false m h = cc

-- What the receiver of an offer may rely on.
pub record IsAcceptable (p : FileOfferPayload) : Type 0 where
  pub id : IsHex p.transfer_id 32
  pub name : StaysInside p.file_name
  pub chunk_positive : 0 < p.chunk_size
  pub chunk_small : p.chunk_size ≤ max_file_chunk_data_size
  pub hash : IsHex p.sha256 64

checks-IsAcceptable :
    (p : FileOfferPayload)
    → void_ok (validate_transfer_id p.transfer_id) ≡ true
    → void_ok (validate_file_name p.file_name) ≡ true
    → void_ok (validate_chunk_size p.chunk_size) ≡ true
    → void_ok (validate_sha256 p.sha256) ≡ true
    → IsAcceptable p
unfolding validate_transfer_id validate_file_name validate_chunk_size validate_sha256
checks-IsAcceptable p v1 v2 v3 v4 =
    let sized = require-ok _ _ v3 in
    record {
      id = is_lower_hex-IsHex p.transfer_id 32 (require-ok _ _ v1);
      name = is_safe-StaysInside p.file_name (require-ok _ _ v2);
      chunk_positive = ground arith;
      chunk_small = ground arith;
      hash = is_lower_hex-IsHex p.sha256 64 (require-ok _ _ v4);
    }

-- Whatever bytes a peer sends, a file offer that is decoded has a name that is not empty and holds
-- no path separator and no `..`, a chunk size that is positive and fits a frame, and an identifier
-- and a hash of 32 and 64 lower-case hexadecimal digits.
pub decode_file_offer-IsAcceptable :
    (lib : JsonLibrary) (b : Text) (p : FileOfferPayload)
    → decode_file_offer_payload lib b ≡ success p
    → IsAcceptable p
unfolding decode_file_offer_payload
decode_file_offer-IsAcceptable lib b p h =
    let (j, h0) = decode_payload-eq-success lib b _ h in
    let (id, _, h1) = >>=-eq-success (required_string lib j "transfer_id") _ h0 in
    let (name, _, h2) = >>=-eq-success (required_string lib j "file_name") _ h1 in
    let (size, _, h3) = >>=-eq-success (required_u64 lib j "file_size") _ h2 in
    let (chunk, _, h4) = >>=-eq-success (required_u64 lib j "chunk_size") _ h3 in
    let (hash, _, h5) = >>=-eq-success (required_string lib j "sha256") _ h4 in
    let (v1, k1) = check-eq-success (validate_transfer_id id) _ h5 in
    let (v2, k2) = check-eq-success (validate_file_name name) _ k1 in
    let (v3, k3) = check-eq-success (validate_chunk_size chunk) _ k2 in
    let (v4, k4) = check-eq-success (validate_sha256 hash) _ k3 in
    subst IsAcceptable (success-injective k4) (checks-IsAcceptable _ v1 v2 v3 v4)
