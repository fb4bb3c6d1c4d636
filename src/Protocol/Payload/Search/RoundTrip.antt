-- ===== src/Protocol/Payload/Search/RoundTrip.antt =====
-- A search payload that was encoded is decoded to itself.
use core_desk.Base.Int.{fits_int, fits_i64}
use core_desk.Base.{◌<◌, ◌^◌, ◌≡◌, refl, ◌∙◌, true, List, [], ◌∷◌, All, arith}
use core_desk.Common.{
  success, Text, text, check-ok, check-eq-success, >>=-eq-success, require, void_ok,
}
use core_desk.Protocol.Json.{JsonLibrary, JsonLaws, member}
use core_desk.Protocol.Json.Laws.{
  decode_payload-dump, required_string-object, required_bool-object, required_size-object,
  required_u64-object, required_i64-object, required_int-object,
}
use core_desk.Protocol.Json.Fields.{require_object}
use core_desk.Protocol.Payload.Search.{
  SearchRequestPayload, SearchResultPayload, SearchResponsePayload, is_valid_result_type,
  encode_search_request_payload, decode_search_request_payload, encode_results, result_members,
  response_members, encode_search_response_payload, decode_result, decode_results, required_results,
  decode_search_response_payload,
}

-- The numbers of a result fit their machine types.
pub record Fits (r : SearchResultPayload) : Type 0 where
  pub modified_ms : fits_i64 r.modified_ms ≡ true
  pub score : fits_int r.score ≡ true

module _ {lib : JsonLibrary} (law : JsonLaws lib) where
  pub decode-encode_search_request :
      (p : SearchRequestPayload) (b : Text)
      → p.limit < 2 ^ 64
      → encode_search_request_payload lib p ≡ success b
      → decode_search_request_payload lib b ≡ success p
  unfolding encode_search_request_payload decode_search_request_payload member
  decode-encode_search_request p b w h =
      decode_payload-dump law _ b _ h
      ∙ rw (
        required_string-object law _ "query" p.query refl,
        required_size-object law _ "limit" p.limit refl w,
      )

  decode_result-object :
      (r : SearchResultPayload)
      → Fits r
      → void_ok (require (is_valid_result_type r.type) (text "invalid result type")) ≡ true
      → decode_result lib (lib.object (result_members lib r)) ≡ success r
  unfolding decode_result member
  decode_result-object r w v =
      check-ok (require_object lib (lib.object (result_members lib r)))
        (ground (arith, law.is_object-object (result_members lib r)))
      ∙ rw (
        required_string-object law _ "name" r.name refl,
        required_string-object law _ "path" r.path refl,
        required_string-object law _ "relative_path" r.relative_path refl,
        required_u64-object law _ "size" r.size refl,
        required_i64-object law _ "modified_ms" r.modified_ms refl w.modified_ms,
        required_string-object law _ "type" r.type refl,
        required_int-object law _ "score" r.score refl w.score,
        check-ok (require (is_valid_result_type r.type) (text "invalid result type")) v,
      )

  decode_results-encode :
      (rs : List SearchResultPayload) (js : List lib.Json)
      → All Fits rs
      → encode_results lib rs ≡ success js
      → decode_results lib js ≡ success rs
  unfolding encode_results decode_results
  decode_results-encode [] js w h = let e : [] ≡ js = cc in rw (← e)
  decode_results-encode (r ∷ rs) js w h =
      let (v, h1) = check-eq-success _ _ h in
      let (js', e, h2) = >>=-eq-success (encode_results lib rs) _ h1 in
      let e' : lib.object (result_members lib r) ∷ js' ≡ js = cc in
      rw (← e', decode_result-object r w.0 v, decode_results-encode rs js' w.1 e)

  required_results-object :
      (p : SearchResponsePayload) (js : List lib.Json)
      → required_results lib (lib.object (response_members lib p js)) ≡ success js
  unfolding required_results member
  required_results-object p js =
      ground (arith, law.find-object (response_members lib p js) "results", law.as_array-array js)

  -- A search response that was encoded is decoded to itself, each of its results included, if the
  -- numbers of its results fit their machine types.
  pub decode-encode_search_response :
      (p : SearchResponsePayload) (b : Text)
      → All Fits p.results
      → encode_search_response_payload lib p ≡ success b
      → decode_search_response_payload lib b ≡ success p
  unfolding encode_search_response_payload decode_search_response_payload member
  decode-encode_search_response p b w h =
      let (js, e, h') = >>=-eq-success (encode_results lib p.results) _ h in
      decode_payload-dump law _ b _ h'
      ∙ rw (
        required_u64-object law _ "generation" p.generation refl,
        required_bool-object law _ "stale" p.stale refl,
        required_u64-object law _ "elapsed_us" p.elapsed_us refl,
        required_bool-object law _ "from_cache" p.from_cache refl,
        required_results-object p js,
        decode_results-encode p.results js w e,
      )
