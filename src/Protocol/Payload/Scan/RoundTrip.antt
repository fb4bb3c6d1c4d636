-- ===== src/Protocol/Payload/Scan/RoundTrip.antt =====
-- A payload of this kind that was encoded is decoded to itself.
use core_desk.Base.{◌<◌, ◌^◌, ◌≡◌, refl, ◌∙◌}
use core_desk.Common.{success, Text}
use core_desk.Protocol.Json.{JsonLibrary, JsonLaws, member}
use core_desk.Protocol.Json.Laws.{
  decode_payload-dump, required_bool-object, required_size-object, required_string-object,
  required_u64-object,
}
use core_desk.Protocol.Payload.Scan.{
  ScanRequestPayload, encode_scan_request_payload, decode_scan_request_payload, ScanProgressPayload,
  encode_scan_progress_payload, decode_scan_progress_payload, ScanCompletedPayload,
  encode_scan_completed_payload, decode_scan_completed_payload,
}

module _ {lib : JsonLibrary} (law : JsonLaws lib) where
  pub decode-encode_scan_request :
      (p : ScanRequestPayload) (b : Text)
      → p.worker_count < 2 ^ 64
      → encode_scan_request_payload lib p ≡ success b
      → decode_scan_request_payload lib b ≡ success p
  unfolding encode_scan_request_payload decode_scan_request_payload member
  decode-encode_scan_request p b w_worker_count h =
      decode_payload-dump law _ b _ h
      ∙ rw (
        required_string-object law _ "root" p.root refl,
        required_bool-object law _ "include_dot_hidden" p.include_dot_hidden refl,
        required_bool-object law _ "follow_directory_symlinks" p.follow_directory_symlinks refl,
        required_size-object law _ "worker_count" p.worker_count refl w_worker_count,
      )

  pub decode-encode_scan_progress :
      (p : ScanProgressPayload) (b : Text)
      → encode_scan_progress_payload lib p ≡ success b
      → decode_scan_progress_payload lib b ≡ success p
  unfolding encode_scan_progress_payload decode_scan_progress_payload member
  decode-encode_scan_progress p b h =
      decode_payload-dump law _ b _ h
      ∙ rw (
        required_string-object law _ "scan_id" p.scan_id refl,
        required_u64-object law _ "discovered" p.discovered refl,
        required_u64-object law _ "processed" p.processed refl,
        required_u64-object law _ "skipped" p.skipped refl,
        required_u64-object law _ "failed" p.failed refl,
        required_u64-object law _ "elapsed_ms" p.elapsed_ms refl,
      )

  pub decode-encode_scan_completed :
      (p : ScanCompletedPayload) (b : Text)
      → encode_scan_completed_payload lib p ≡ success b
      → decode_scan_completed_payload lib b ≡ success p
  unfolding encode_scan_completed_payload decode_scan_completed_payload member
  decode-encode_scan_completed p b h =
      decode_payload-dump law _ b _ h
      ∙ rw (
        required_string-object law _ "scan_id" p.scan_id refl,
        required_u64-object law _ "generation" p.generation refl,
        required_u64-object law _ "file_count" p.file_count refl,
        required_u64-object law _ "elapsed_ms" p.elapsed_ms refl,
      )
