-- ===== src/Protocol/Payload/Scan.antt =====
-- The payloads of a scan: ScanRequest, ScanProgress and ScanCompleted.
pub mod RoundTrip
use core_desk.Base.Int.{pos}
use core_desk.Base.{ℕ, Bool, [], ◌∷◌}
use core_desk.Common.{Result, success, Text, ◌>>=◌}
use core_desk.Protocol.Json.{JsonLibrary}
use core_desk.Protocol.Json.Fields.{
  required_bool, required_size, required_string, required_u64, dump_json, decode_payload,
}

pub record ScanRequestPayload : Type 0 where
  pub root : Text
  pub include_dot_hidden : Bool
  pub follow_directory_symlinks : Bool
  pub worker_count : ℕ

pub record ScanProgressPayload : Type 0 where
  pub scan_id : Text
  pub discovered : ℕ
  pub processed : ℕ
  pub skipped : ℕ
  pub failed : ℕ
  pub elapsed_ms : ℕ

pub record ScanCompletedPayload : Type 0 where
  pub scan_id : Text
  pub generation : ℕ
  pub file_count : ℕ
  pub elapsed_ms : ℕ

module _ (lib : JsonLibrary) where
  open lib use {object, string, boolean, integer}

  unfoldable pub encode_scan_request_payload : ScanRequestPayload → Result Text
  encode_scan_request_payload payload = dump_json lib (
      object (
        ("root", string payload.root)
        ∷ ("include_dot_hidden", boolean payload.include_dot_hidden)
        ∷ ("follow_directory_symlinks", boolean payload.follow_directory_symlinks)
        ∷ ("worker_count", integer (pos payload.worker_count))
        ∷ []))

  unfoldable pub decode_scan_request_payload : Text → Result ScanRequestPayload
  decode_scan_request_payload bytes = decode_payload lib bytes λ json. do
    root ← required_string lib json "root"
    include_dot_hidden ← required_bool lib json "include_dot_hidden"
    follow_directory_symlinks ← required_bool lib json "follow_directory_symlinks"
    worker_count ← required_size lib json "worker_count"
    success (record {
      root = root;
      include_dot_hidden = include_dot_hidden;
      follow_directory_symlinks = follow_directory_symlinks;
      worker_count = worker_count;
    })

  unfoldable pub encode_scan_progress_payload : ScanProgressPayload → Result Text
  encode_scan_progress_payload payload = dump_json lib (
      object (
        ("scan_id", string payload.scan_id)
        ∷ ("discovered", integer (pos payload.discovered))
        ∷ ("processed", integer (pos payload.processed))
        ∷ ("skipped", integer (pos payload.skipped))
        ∷ ("failed", integer (pos payload.failed))
        ∷ ("elapsed_ms", integer (pos payload.elapsed_ms))
        ∷ []))

  unfoldable pub decode_scan_progress_payload : Text → Result ScanProgressPayload
  decode_scan_progress_payload bytes = decode_payload lib bytes λ json. do
    scan_id ← required_string lib json "scan_id"
    discovered ← required_u64 lib json "discovered"
    processed ← required_u64 lib json "processed"
    skipped ← required_u64 lib json "skipped"
    failed ← required_u64 lib json "failed"
    elapsed_ms ← required_u64 lib json "elapsed_ms"
    success (record {
      scan_id = scan_id;
      discovered = discovered;
      processed = processed;
      skipped = skipped;
      failed = failed;
      elapsed_ms = elapsed_ms;
    })

  unfoldable pub encode_scan_completed_payload : ScanCompletedPayload → Result Text
  encode_scan_completed_payload payload = dump_json lib (
      object (
        ("scan_id", string payload.scan_id)
        ∷ ("generation", integer (pos payload.generation))
        ∷ ("file_count", integer (pos payload.file_count))
        ∷ ("elapsed_ms", integer (pos payload.elapsed_ms))
        ∷ []))

  unfoldable pub decode_scan_completed_payload : Text → Result ScanCompletedPayload
  decode_scan_completed_payload bytes = decode_payload lib bytes λ json. do
    scan_id ← required_string lib json "scan_id"
    generation ← required_u64 lib json "generation"
    file_count ← required_u64 lib json "file_count"
    elapsed_ms ← required_u64 lib json "elapsed_ms"
    success (record {
      scan_id = scan_id;
      generation = generation;
      file_count = file_count;
      elapsed_ms = elapsed_ms;
    })
