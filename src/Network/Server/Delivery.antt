-- ===== src/Network/Server/Delivery.antt =====
-- The end of a transfer: what fails gives it up, and what succeeds puts the file at its target.
use core_desk.Base.{
  ℕ, ◌==◌, ==→≡, ◌≡◌, ◌≢◌, refl, sym, ap, ◌∙◌, subst, true, false, Bool-cases, ◌⊎◌, inl, inr, [],
  some, text_eq, text_eq→≡, text_eq_refl,
}
use core_desk.Common.{Text, text, ErrorCode, Error}
use core_desk.Protocol.Json.{JsonLibrary}
use core_desk.Network.Qt.{Qt, QtLaws, KeepsOthers}
use core_desk.Network.Server.{
  ReceiveState, ActiveTransfer, Server, owns, cleanup_active_transfer, send_file_result,
}
use core_desk.Network.Server.Receive.{
  error_of, fail_receive, reject_connection_receive, publish, complete_transfer,
}
use core_desk.Network.Server.Paths.{is_part_path, not_part_of}
use core_desk.Network.Server.Calm.{Ended, Calm, Calm-trans}
use core_desk.Network.Server.Closes.{part_of, Calm-cleanup-Ended}
use core_desk.Network.Server.Sends.{send_file_result-Calm, disconnect_after_pending_write-Calm}
use core_desk.Network.Server.Invariant.{
  Held, IsValid, Published, Progress, gone-IsValid, Calm-Progress,
}

module _ {qt : Qt} (laws : QtLaws qt) (lib : JsonLibrary) where
  pub fail_receive-Ended :
      (k request_id : ℕ) (e : Error) (s : Server qt)
      → owns qt k s.active_transfer ≡ true
      → Ended qt k s (fail_receive qt lib k request_id e s)
  unfolding fail_receive
  fail_receive-Ended k request_id e s own =
      Calm-cleanup-Ended laws true own (send_file_result-Calm laws lib k request_id _ false e s)

  pub reject_connection_receive-Calm :
      (k request_id : ℕ) (id : Text) (e : Error) (s : Server qt)
      → Calm qt k s (reject_connection_receive qt lib k request_id id e s)
  unfolding reject_connection_receive
  reject_connection_receive-Calm k request_id id e s =
      Calm-trans qt (send_file_result-Calm laws lib k request_id id false e s)
        (disconnect_after_pending_write-Calm laws k _)

  module _ (k request_id : ℕ) (s : Server qt) (t : ActiveTransfer) (valid : IsValid qt s)
      (active : s.active_transfer ≡ some t) (own : (t.socket == k) ≡ true) where
    -- The server while it works on the transfer, which has then the given state.
    abbrev working : ActiveTransfer → qt.World → Server qt
    working u w = record s { active_transfer = some u; world = w }

    -- A failure gives the transfer up, whatever was done to its part file before.
    pub fail_receive-Progress :
        (u : ActiveTransfer) (s' : Server qt) (e : Error)
        → s'.active_transfer ≡ some u
        → (u.socket ≡ t.socket) × (u.part_path ≡ t.part_path)
        → KeepsOthers qt t.part_path s.world s'.world
        → Progress qt k s (fail_receive qt lib k request_id e s')
    fail_receive-Progress u s' e still same keeps =
        let own' : owns qt k s'.active_transfer ≡ true = rw (still, same.0) own in
        let failed : Ended qt k s' (fail_receive qt lib k request_id e s') =
          fail_receive-Ended k request_id e s' own' in
        Calm-Progress qt valid (
          Calm.ended (record {
            owned = subst (λ o. owns qt k o ≡ true) (sym active) own;
            gone = failed.gone;
            others = λ t' at p apart.
                let path : t.part_path ≡ t'.part_path = ap part_of (sym active ∙ at) in
                failed.others u still p (λ q. apart (q ∙ same.1 ∙ path))
                ∙ keeps p (λ q. apart (q ∙ path));
          }))

    abbrev finishing : ActiveTransfer
    finishing = record t { state = ReceiveState.finishing }

    abbrev flushed : qt.World
    flushed = qt.after_flush s.world t.part_path

    abbrev closed : qt.World
    closed = qt.after_close flushed t.part_path

    abbrev renamed : qt.World
    renamed = qt.after_rename closed t.part_path t.target_path

    flushed-KeepsOthers : KeepsOthers qt t.part_path s.world flushed
    flushed-KeepsOthers = laws.flush-KeepsOthers s.world t.part_path

    closed-KeepsOthers : KeepsOthers qt t.part_path s.world closed
    closed-KeepsOthers p apart =
        laws.close-KeepsOthers flushed t.part_path p apart ∙ flushed-KeepsOthers p apart

    -- After the rename: the file is at its target, and the rest is as it was.
    renamed_files :
        (p : Text)
        → is_part_path p ≡ false
        → t.expected_offset ≡ t.file_size
        → qt.flushes s.world t.part_path ≡ true
        → qt.sha256_hex t.hash ≡ t.sha256
        → qt.renames closed t.part_path t.target_path ≡ true
        → (s' : Server qt) → qt.content s'.world p ≡ qt.content renamed p
        → (qt.content s'.world p ≡ qt.content s.world p) ⊎ Published qt s p s'
    renamed_files p off size flush hash rename s' later =
        let h : Held qt s t = valid t active in
        let apart : p ≢ t.part_path = not_part_of p t.target_path t.part_path off h.named in
        let moved = laws.content-rename closed t.part_path t.target_path rename in
        elim (Bool-cases (text_eq p t.target_path)) [
          | inl here ↦
              let at : p ≡ t.target_path = text_eq→≡ p t.target_path here in
              inr (record {
                transfer = t;
                active = active;
                at_target = sym at;
                absent =
                    sym (closed-KeepsOthers p apart) ∙ ap (λ x. qt.content closed x) at ∙ moved.0;
                bytes = t.hash;
                present =
                    later
                    ∙ ap (λ x. qt.content renamed x) at
                    ∙ moved.1
                    ∙ laws.content-close s.world t.part_path (qt.written s.world t.part_path)
                        (laws.content-flush s.world t.part_path flush)
                    ∙ ap (λ x. some x) h.stored;
                hashed = hash;
                sized = h.counted ∙ size;
              })
          | inr there ↦
              let away : p ≢ t.target_path = λ q. absurd (
                let same : text_eq p t.target_path ≡ true = rw q (text_eq_refl t.target_path) in
                cc) in
              inl (
                later
                ∙ laws.rename_others closed t.part_path t.target_path p apart away
                ∙ closed-KeepsOthers p apart)
        ]

    publish-Progress :
        t.expected_offset ≡ t.file_size
        → qt.flushes s.world t.part_path ≡ true
        → qt.sha256_hex t.hash ≡ t.sha256
        → Progress qt k s (publish qt lib k request_id finishing (working finishing closed))
    unfolding publish
    publish-Progress size flush hash =
        let sent : Server qt =
          send_file_result qt lib k request_id t.transfer_id true (error_of ErrorCode.ok_code [])
            (working finishing renamed) in
        let done : Ended qt k (working finishing renamed) (cleanup_active_transfer qt false sent) =
          Calm-cleanup-Ended laws false own (
            send_file_result-Calm laws lib k request_id t.transfer_id true
              (error_of ErrorCode.ok_code []) (working finishing renamed)) in
        elim (Bool-cases (qt.renames closed t.part_path t.target_path)) [
          | inl rename ↦
              simp (rename, publish)
                (record {
                  valid = gone-IsValid qt (cleanup_active_transfer qt false sent) done.gone;
                  files = λ p off.
                      let apart : p ≢ t.part_path =
                        not_part_of p t.target_path t.part_path off (valid t active).named in
                      renamed_files p off size flush hash rename
                        (cleanup_active_transfer qt false sent)
                        (done.others finishing refl p apart);
                  isolated = λ t' at other.
                      let owned : owns qt k (some t') ≡ true =
                        subst (λ o. owns qt k o ≡ true) (sym active ∙ at) own in
                      absurd (cc);
                })
          | inr fails ↦
              simp (fails, publish)
                (fail_receive-Progress finishing (working finishing renamed)
                  (error_of ErrorCode.io_error (text "failed to rename completed transfer")) refl
                  (refl, refl)
                  (λ p apart.
                    laws.rename_failed closed t.part_path t.target_path p fails
                    ∙ closed-KeepsOthers p apart))
        ]

    pub complete_transfer-Progress :
        Progress qt k s
          (complete_transfer qt lib k request_id finishing (working finishing s.world))
    unfolding complete_transfer
    complete_transfer-Progress = elim (Bool-cases (t.expected_offset == t.file_size)) [
      | inr short ↦
          simp (short, complete_transfer)
            (fail_receive-Progress finishing (working finishing s.world) _ refl (refl, refl)
              (λ p apart. refl))
      | inl size ↦ elim (Bool-cases (qt.flushes s.world t.part_path)) [
        | inr fails ↦
            simp (size, fails, complete_transfer)
              (fail_receive-Progress finishing (working finishing flushed) _ refl (refl, refl)
                flushed-KeepsOthers)
        | inl flush ↦ elim (Bool-cases (text_eq (qt.sha256_hex t.hash) t.sha256)) [
          | inr differs ↦
              simp (size, flush, differs, complete_transfer)
                (fail_receive-Progress finishing (working finishing closed) _ refl (refl, refl)
                  closed-KeepsOthers)
          | inl hash ↦
              simp (size, flush, hash, complete_transfer)
                (publish-Progress (==→≡ t.expected_offset t.file_size size) flush
                  (text_eq→≡ (qt.sha256_hex t.hash) t.sha256 hash))
        ]
      ]
    ]
