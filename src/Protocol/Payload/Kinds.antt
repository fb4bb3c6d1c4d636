-- ===== src/Protocol/Payload/Kinds.antt =====
-- The JSON payload codecs as one family over the kind of a payload, and their round trip.
use core_desk.Base.{◌<◌, ◌^◌, ◌≡◌, Bool, true, not, ◌&&◌, All, arith}
use core_desk.Common.{ErrorCode, is_ok_code, Result, success, Text, text, void_ok, require}
use core_desk.Protocol.Json.{JsonLibrary, JsonLaws}
use core_desk.Protocol.Payload.Scan
use core_desk.Protocol.Payload.Scan.{ScanRequestPayload, ScanProgressPayload, ScanCompletedPayload}
use core_desk.Protocol.Payload.Scan.RoundTrip.{
  decode-encode_scan_request, decode-encode_scan_progress, decode-encode_scan_completed,
}
use core_desk.Protocol.Payload.Search
use core_desk.Protocol.Payload.Search.{SearchRequestPayload, SearchResponsePayload}
use core_desk.Protocol.Payload.Search.RoundTrip.{
  decode-encode_search_request, decode-encode_search_response,
}
use core_desk.Protocol.Payload.Lan
use core_desk.Protocol.Payload.Lan.{
  EnableLanTransferRequestPayload, EnableLanTransferResponsePayload,
  DisableLanTransferRequestPayload, DisableLanTransferResponsePayload,
  SetReceiveDirectoryRequestPayload, SetReceiveDirectoryResponsePayload,
  GetTransferStatusRequestPayload, GetTransferStatusResponsePayload,
}
use core_desk.Protocol.Payload.Lan.RoundTrip.{
  decode-encode_enable_lan_transfer_request, decode-encode_enable_lan_transfer_response,
  decode-encode_disable_lan_transfer_request, decode-encode_disable_lan_transfer_response,
  decode-encode_set_receive_directory_request, decode-encode_set_receive_directory_response,
  decode-encode_get_transfer_status_request, decode-encode_get_transfer_status_response,
}
use core_desk.Protocol.Payload.SendFile
use core_desk.Protocol.Payload.SendFile.{
  SendFileRequestPayload, SendFileAcceptedPayload, SendFileResultPayload, ErrorResponsePayload,
}
use core_desk.Protocol.Payload.SendFile.RoundTrip.{
  decode-encode_send_file_request, decode-encode_send_file_accepted, decode-encode_send_file_result,
  decode-encode_error_response,
}
use core_desk.Protocol.Payload.Handshake
use core_desk.Protocol.Payload.Handshake.{HelloPayload, HelloAckPayload}
use core_desk.Protocol.Payload.Handshake.RoundTrip.{decode-encode_hello, decode-encode_hello_ack}
use core_desk.Protocol.Payload.Transfer
use core_desk.Protocol.Payload.Transfer.{
  FileOfferPayload, FileAcceptPayload, FileRejectPayload, FileFinishPayload, FileResultPayload,
}
use core_desk.Protocol.Payload.Transfer.RoundTrip.{
  decode-encode_file_offer, decode-encode_file_accept, decode-encode_file_reject,
  decode-encode_file_finish, decode-encode_file_result,
}

pub data Kind : Type 0 where
  scan_request scan_progress scan_completed search_request search_response
        enable_lan_transfer_request enable_lan_transfer_response disable_lan_transfer_request
        disable_lan_transfer_response set_receive_directory_request set_receive_directory_response
        get_transfer_status_request get_transfer_status_response send_file_request
        send_file_accepted send_file_result error_response hello hello_ack file_offer file_accept
        file_reject file_finish file_result :
      Kind

abbrev pub PayloadOf : Kind → Type 0
PayloadOf scan_request = ScanRequestPayload
PayloadOf scan_progress = ScanProgressPayload
PayloadOf scan_completed = ScanCompletedPayload
PayloadOf search_request = SearchRequestPayload
PayloadOf search_response = SearchResponsePayload
PayloadOf enable_lan_transfer_request = EnableLanTransferRequestPayload
PayloadOf enable_lan_transfer_response = EnableLanTransferResponsePayload
PayloadOf disable_lan_transfer_request = DisableLanTransferRequestPayload
PayloadOf disable_lan_transfer_response = DisableLanTransferResponsePayload
PayloadOf set_receive_directory_request = SetReceiveDirectoryRequestPayload
PayloadOf set_receive_directory_response = SetReceiveDirectoryResponsePayload
PayloadOf get_transfer_status_request = GetTransferStatusRequestPayload
PayloadOf get_transfer_status_response = GetTransferStatusResponsePayload
PayloadOf send_file_request = SendFileRequestPayload
PayloadOf send_file_accepted = SendFileAcceptedPayload
PayloadOf send_file_result = SendFileResultPayload
PayloadOf error_response = ErrorResponsePayload
PayloadOf hello = HelloPayload
PayloadOf hello_ack = HelloAckPayload
PayloadOf file_offer = FileOfferPayload
PayloadOf file_accept = FileAcceptPayload
PayloadOf file_reject = FileRejectPayload
PayloadOf file_finish = FileFinishPayload
PayloadOf file_result = FileResultPayload

-- The numbers of a payload fit their machine types, and a result has the code that it should.
abbrev pub FitsKind : (k : Kind) → PayloadOf k → Type 0
FitsKind scan_request p = p.worker_count < 2 ^ 64
FitsKind scan_progress p = Unit
FitsKind scan_completed p = Unit
FitsKind search_request p = p.limit < 2 ^ 64
FitsKind search_response p = All Search.RoundTrip.Fits p.results
FitsKind enable_lan_transfer_request p = Unit
FitsKind enable_lan_transfer_response p = p.port < 2 ^ 16
FitsKind disable_lan_transfer_request p = Unit
FitsKind disable_lan_transfer_response p = Unit
FitsKind set_receive_directory_request p = Unit
FitsKind set_receive_directory_response p = Unit
FitsKind get_transfer_status_request p = Unit
FitsKind get_transfer_status_response p = p.port < 2 ^ 16
FitsKind send_file_request p = p.port < 2 ^ 16
FitsKind send_file_accepted p = Unit
FitsKind send_file_result p = p.success ≡ is_ok_code p.code
FitsKind error_response p = Unit
FitsKind hello p = p.protocol_version < 2 ^ 32
FitsKind hello_ack p = p.protocol_version < 2 ^ 32
FitsKind file_offer p = Unit
FitsKind file_accept p = Unit
FitsKind file_reject p = Unit
FitsKind file_finish p = Unit
FitsKind file_result p = Unit

module _ (lib : JsonLibrary) where
  unfoldable pub encode_kind : (k : Kind) → PayloadOf k → Result Text
  encode_kind scan_request p = Scan.encode_scan_request_payload lib p
  encode_kind scan_progress p = Scan.encode_scan_progress_payload lib p
  encode_kind scan_completed p = Scan.encode_scan_completed_payload lib p
  encode_kind search_request p = Search.encode_search_request_payload lib p
  encode_kind search_response p = Search.encode_search_response_payload lib p
  encode_kind enable_lan_transfer_request p = Lan.encode_enable_lan_transfer_request_payload lib p
  encode_kind enable_lan_transfer_response p = Lan.encode_enable_lan_transfer_response_payload lib p
  encode_kind disable_lan_transfer_request p = Lan.encode_disable_lan_transfer_request_payload lib p
  encode_kind disable_lan_transfer_response p =
      Lan.encode_disable_lan_transfer_response_payload lib p
  encode_kind set_receive_directory_request p =
      Lan.encode_set_receive_directory_request_payload lib p
  encode_kind set_receive_directory_response p =
      Lan.encode_set_receive_directory_response_payload lib p
  encode_kind get_transfer_status_request p = Lan.encode_get_transfer_status_request_payload lib p
  encode_kind get_transfer_status_response p = Lan.encode_get_transfer_status_response_payload lib p
  encode_kind send_file_request p = SendFile.encode_send_file_request_payload lib p
  encode_kind send_file_accepted p = SendFile.encode_send_file_accepted_payload lib p
  encode_kind send_file_result p = SendFile.encode_send_file_result_payload lib p
  encode_kind error_response p = SendFile.encode_error_response_payload lib p
  encode_kind hello p = Handshake.encode_hello_payload lib p
  encode_kind hello_ack p = Handshake.encode_hello_ack_payload lib p
  encode_kind file_offer p = Transfer.encode_file_offer_payload lib p
  encode_kind file_accept p = Transfer.encode_file_accept_payload lib p
  encode_kind file_reject p = Transfer.encode_file_reject_payload lib p
  encode_kind file_finish p = Transfer.encode_file_finish_payload lib p
  encode_kind file_result p = Transfer.encode_file_result_payload lib p

  unfoldable pub decode_kind : (k : Kind) → Text → Result (PayloadOf k)
  decode_kind scan_request b = Scan.decode_scan_request_payload lib b
  decode_kind scan_progress b = Scan.decode_scan_progress_payload lib b
  decode_kind scan_completed b = Scan.decode_scan_completed_payload lib b
  decode_kind search_request b = Search.decode_search_request_payload lib b
  decode_kind search_response b = Search.decode_search_response_payload lib b
  decode_kind enable_lan_transfer_request b = Lan.decode_enable_lan_transfer_request_payload lib b
  decode_kind enable_lan_transfer_response b = Lan.decode_enable_lan_transfer_response_payload lib b
  decode_kind disable_lan_transfer_request b = Lan.decode_disable_lan_transfer_request_payload lib b
  decode_kind disable_lan_transfer_response b =
      Lan.decode_disable_lan_transfer_response_payload lib b
  decode_kind set_receive_directory_request b =
      Lan.decode_set_receive_directory_request_payload lib b
  decode_kind set_receive_directory_response b =
      Lan.decode_set_receive_directory_response_payload lib b
  decode_kind get_transfer_status_request b = Lan.decode_get_transfer_status_request_payload lib b
  decode_kind get_transfer_status_response b = Lan.decode_get_transfer_status_response_payload lib b
  decode_kind send_file_request b = SendFile.decode_send_file_request_payload lib b
  decode_kind send_file_accepted b = SendFile.decode_send_file_accepted_payload lib b
  decode_kind send_file_result b = SendFile.decode_send_file_result_payload lib b
  decode_kind error_response b = SendFile.decode_error_response_payload lib b
  decode_kind hello b = Handshake.decode_hello_payload lib b
  decode_kind hello_ack b = Handshake.decode_hello_ack_payload lib b
  decode_kind file_offer b = Transfer.decode_file_offer_payload lib b
  decode_kind file_accept b = Transfer.decode_file_accept_payload lib b
  decode_kind file_reject b = Transfer.decode_file_reject_payload lib b
  decode_kind file_finish b = Transfer.decode_file_finish_payload lib b
  decode_kind file_result b = Transfer.decode_file_result_payload lib b

ok_result :
    (s : Bool) (c : ErrorCode)
    → s ≡ is_ok_code c
    → void_ok (require (not (s && not (is_ok_code c))) (text "successful result must use OK"))
      ≡ true
unfolding require
ok_result s c e = ground arith

failed_result :
    (s : Bool) (c : ErrorCode)
    → s ≡ is_ok_code c
    → void_ok (require (not (not s && is_ok_code c)) (text "failed result must not use OK")) ≡ true
unfolding require
failed_result s c e = ground arith

-- A payload of any kind that was encoded is decoded to itself, if its numbers fit their machine
-- types and, in the result of a sent file, the code is `Ok` exactly on success.
pub decode-encode :
    {lib : JsonLibrary} (law : JsonLaws lib) (k : Kind) (p : PayloadOf k) (b : Text)
    → FitsKind k p
    → encode_kind lib k p ≡ success b
    → decode_kind lib k b ≡ success p
unfolding encode_kind decode_kind
decode-encode law scan_request p b f h = decode-encode_scan_request law p b f h
decode-encode law scan_progress p b f h = decode-encode_scan_progress law p b h
decode-encode law scan_completed p b f h = decode-encode_scan_completed law p b h
decode-encode law search_request p b f h = decode-encode_search_request law p b f h
decode-encode law search_response p b f h = decode-encode_search_response law p b f h
decode-encode law enable_lan_transfer_request p b f h =
    decode-encode_enable_lan_transfer_request law p b h
decode-encode law enable_lan_transfer_response p b f h =
    decode-encode_enable_lan_transfer_response law p b f h
decode-encode law disable_lan_transfer_request p b f h =
    decode-encode_disable_lan_transfer_request law p b h
decode-encode law disable_lan_transfer_response p b f h =
    decode-encode_disable_lan_transfer_response law p b h
decode-encode law set_receive_directory_request p b f h =
    decode-encode_set_receive_directory_request law p b h
decode-encode law set_receive_directory_response p b f h =
    decode-encode_set_receive_directory_response law p b h
decode-encode law get_transfer_status_request p b f h =
    decode-encode_get_transfer_status_request law p b h
decode-encode law get_transfer_status_response p b f h =
    decode-encode_get_transfer_status_response law p b f h
decode-encode law send_file_request p b f h = decode-encode_send_file_request law p b f h
decode-encode law send_file_accepted p b f h = decode-encode_send_file_accepted law p b h
decode-encode law send_file_result p b f h =
    decode-encode_send_file_result law p b (ok_result p.success p.code f)
      (failed_result p.success p.code f) h
decode-encode law error_response p b f h = decode-encode_error_response law p b h
decode-encode law hello p b f h = decode-encode_hello law p b f h
decode-encode law hello_ack p b f h = decode-encode_hello_ack law p b f h
decode-encode law file_offer p b f h = decode-encode_file_offer law p b h
decode-encode law file_accept p b f h = decode-encode_file_accept law p b h
decode-encode law file_reject p b f h = decode-encode_file_reject law p b h
decode-encode law file_finish p b f h = decode-encode_file_finish law p b h
decode-encode law file_result p b f h = decode-encode_file_result law p b h
