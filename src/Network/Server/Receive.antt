-- ===== src/Network/Server/Receive.antt =====
-- adapters/qt_network/TcpTransferServer: the file that is received, from the offer to the rename.
use core_desk.Base.{
  ℕ, ◌==◌, Bool, true, false, not, ◌||◌, if◌then◌else◌, [], ◌∷◌, ◌++◌, Option, none, some, text_eq,
}
use core_desk.Common.{
  Text, text, ErrorCode, Error, VoidResult, void_success, void_failure, void_ok, invalid,
}
use core_desk.Protocol.Json.{JsonLibrary}
use core_desk.Protocol.Payload.Transfer.{FileOfferPayload}
use core_desk.Network.Qt.{Qt}
use core_desk.Network.Server.{
  ReceiveState, ActiveTransfer, Server, unknown_transfer_id, in_world, cleanup_active_transfer,
  send_file_result, disconnect_after_pending_write,
}

abbrev pub separator : ℕ
separator = 47

-- Whether a path ends with the separator.
abbrev pub ends_with_separator : Text → Bool
ends_with_separator [] = false
ends_with_separator (c ∷ []) = c == separator
ends_with_separator (c ∷ cs) = ends_with_separator cs

-- `operator/` of `std::filesystem::path` on POSIX systems: an absolute path replaces the directory.
abbrev pub path_join : Text → Text → Text
path_join [] name = name
path_join (d ∷ dir) [] =
    if ends_with_separator (d ∷ dir) then d ∷ dir else (d ∷ dir) ++ separator ∷ []
path_join (d ∷ dir) (c ∷ name) =
    if c == separator
    then c ∷ name
    else if ends_with_separator (d ∷ dir)
    then (d ∷ dir) ++ c ∷ name
    else (d ∷ dir) ++ separator ∷ c ∷ name

unfoldable pub part_suffix : Text
unfolding text
part_suffix = text ".coredesk.part"

-- An error with a code, and its message.
abbrev pub error_of : ErrorCode → Text → Error
error_of code message = record { code = code; message = message }

abbrev pub is_some_active : Option ActiveTransfer → Bool
is_some_active none = false
is_some_active (some t) = true

-- `if (ec) return failure({IoError, ec.message()}); return success();`.
abbrev pub io_result : Option Text → VoidResult
io_result none = void_success
io_result (some message) = void_failure (error_of ErrorCode.io_error message)

-- A transfer that takes chunks or a finish of the given id.
abbrev pub is_open : ReceiveState → Bool
is_open ReceiveState.accepted = true
is_open ReceiveState.receiving = true
is_open _ = false

module _ (qt : Qt) where
  unfoldable pub validate_offer_target : FileOfferPayload → Server qt → VoidResult
  validate_offer_target offer s =
      let target : Text = path_join s.receive_directory offer.file_name in
      if is_some_active s.active_transfer
      then void_failure (error_of ErrorCode.busy (text "another transfer is already active"))
      else if not (qt.exists s.world s.receive_directory)
          || not (qt.is_directory s.world s.receive_directory)
      then void_failure
          (error_of ErrorCode.path_not_found (text "receive directory is not available"))
      else if qt.exists s.world target
      then void_failure (error_of ErrorCode.target_exists (text "target file already exists"))
      else io_result (qt.exists_error s.world target)

  abbrev pub started : ℕ → ℕ → FileOfferPayload → Text → ActiveTransfer
  started k request_id offer directory = record {
    state = ReceiveState.accepted;
    socket = k;
    offer_request_id = request_id;
    transfer_id = offer.transfer_id;
    sha256 = offer.sha256;
    file_size = offer.file_size;
    expected_offset = 0;
    target_path = path_join directory offer.file_name;
    part_path = path_join directory (offer.file_name ++ part_suffix);
    hash = [];
  }

  -- `begin_receive` after its check of the offer.
  unfoldable pub open_part : ℕ → ℕ → FileOfferPayload → Server qt → Server qt × VoidResult
  open_part k request_id offer s =
      let part : Text = path_join s.receive_directory (offer.file_name ++ part_suffix) in
      let removed : qt.World = qt.after_remove s.world part in
      let s1 : Server qt = in_world qt (qt.after_open removed part) s in
      if qt.opens removed part
      then (
        record s1 { active_transfer = some (started k request_id offer s.receive_directory) },
        void_success,
      )
      else (s1, void_failure (error_of ErrorCode.io_error (qt.file_error s1.world part)))

  unfoldable pub begin_receive : ℕ → ℕ → FileOfferPayload → Server qt → Server qt × VoidResult
  unfolding validate_offer_target open_part
  begin_receive k request_id offer s =
      let valid : VoidResult = validate_offer_target offer s in
      if void_ok valid then open_part k request_id offer s else (s, valid)

  abbrev pub transfer_id_of : Option ActiveTransfer → Text
  transfer_id_of none = unknown_transfer_id
  transfer_id_of (some t) = t.transfer_id

  module _ (lib : JsonLibrary) where
    unfoldable pub fail_receive : ℕ → ℕ → Error → Server qt → Server qt
    unfolding send_file_result cleanup_active_transfer
    fail_receive k request_id e s =
        cleanup_active_transfer qt true
          (send_file_result qt lib k request_id (transfer_id_of s.active_transfer) false e s)

    unfoldable pub reject_connection_receive : ℕ → ℕ → Text → Error → Server qt → Server qt
    unfolding send_file_result disconnect_after_pending_write
    reject_connection_receive k request_id id e s =
        disconnect_after_pending_write qt k (send_file_result qt lib k request_id id false e s)

    -- The rename, after the part file was flushed and closed and its hash compared.
    unfoldable pub publish : ℕ → ℕ → ActiveTransfer → Server qt → Server qt
    unfolding fail_receive send_file_result cleanup_active_transfer
    publish k request_id t s =
        let s1 : Server qt = in_world qt (qt.after_rename s.world t.part_path t.target_path) s in
        if qt.renames s.world t.part_path t.target_path
        then cleanup_active_transfer qt false (
            send_file_result qt lib k request_id t.transfer_id true (error_of ErrorCode.ok_code [])
              s1)
        else fail_receive k request_id
            (error_of ErrorCode.io_error (text "failed to rename completed transfer")) s1

    unfoldable pub complete_transfer : ℕ → ℕ → ActiveTransfer → Server qt → Server qt
    unfolding fail_receive publish
    complete_transfer k request_id t s =
        let flushed : qt.World = qt.after_flush s.world t.part_path in
        let s1 : Server qt = in_world qt (qt.after_close flushed t.part_path) s in
        if not (t.expected_offset == t.file_size)
        then fail_receive k request_id (invalid (text "received size does not match file_size")) s
        else if not (qt.flushes s.world t.part_path)
        then fail_receive k request_id
            (error_of ErrorCode.io_error (qt.file_error flushed t.part_path))
            (in_world qt flushed s)
        else if not (text_eq (qt.sha256_hex t.hash) t.sha256)
        then fail_receive k request_id (error_of ErrorCode.hash_mismatch (text "sha256 mismatch"))
            s1
        else publish k request_id t s1

    unfoldable pub complete_receive : ℕ → ℕ → Server qt → Server qt
    unfolding send_file_result complete_transfer
    complete_receive k request_id s = elim s.active_transfer [
      | none ↦
          send_file_result qt lib k request_id unknown_transfer_id false
            (invalid (text "no active transfer")) s
      | some t ↦ complete_transfer k request_id t s
    ]
