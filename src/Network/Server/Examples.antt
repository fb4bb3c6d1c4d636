-- ===== src/Network/Server/Examples.antt =====
-- The server over the file system in memory.
use core_desk.Base.{◌≡◌, refl, true, false, ◌⊎◌, List, [], ◌∷◌, none, some, text_eq, arith}
use mathlib.Core.Option.{some-injective}
use core_desk.Base.{subst}
use core_desk.Common.{Text, text}
use core_desk.Protocol.Json.Fields.{throws}
use core_desk.Protocol.Json.Sample.{running, sample}
use core_desk.Protocol.MessageTypes.{file_finish}
use core_desk.Protocol.Frame.{Frame}
use core_desk.Network.Qt.Memory.{Memory, memory, memory_laws, set}
use core_desk.Network.Server.{ReceiveState, ActiveTransfer, new_connection, Server}
use core_desk.Network.Server.Receive.{part_suffix}
use core_desk.Network.Server.Handlers.{
  Event, handle_file_finish, handle_ready_read, dispatch_frame, run,
}
use core_desk.Network.Server.Paths.{is_part_path}
use core_desk.Network.Server.Invariant.{Held, IsValid, Published}
use core_desk.Network.Server.Safety.{run-IsValid, run-content}
use core_desk.Network.Server.Reads.{dispatch_frame-files}
use core_desk.Network.Server.Isolation.{Undisturbed, handle_ready_read-Undisturbed}
use core_desk.Network.Server.Ends.{handle_file_finish-gone}

abbrev disk : Memory
disk = record {
  files = set (text "in/a") (some (1 ∷ [])) (λ p. none);
  writes = set (text "in/b.coredesk.part") (7 ∷ 8 ∷ []) (λ p. []);
}

abbrev fresh : Server memory
fresh = record {
  node_name = text "node";
  receive_directory = text "in";
  active_transfer = none;
  connections = [];
  world = disk;
  terminated = false;
}

abbrev transfer : ActiveTransfer
transfer = record {
  state = ReceiveState.receiving;
  socket = 1;
  offer_request_id = 5;
  transfer_id = text "00112233445566778899aabbccddeeff";
  sha256 = text "00112233445566778899aabbccddeeff00112233445566778899aabbccddeeff";
  file_size = 3;
  expected_offset = 2;
  target_path = text "in/b";
  part_path = text "in/b.coredesk.part";
  hash = 7 ∷ 8 ∷ [];
}

-- Socket 1 sends a file while socket 2 has just connected.
abbrev busy : Server memory
busy = record {
  node_name = text "node";
  receive_directory = text "in";
  active_transfer = some transfer;
  connections = record (new_connection 1) { hello_complete = true } ∷ new_connection 2 ∷ [];
  world = disk;
  terminated = false;
}

busy-Held : Held memory busy transfer
unfolding text text_eq part_suffix
busy-Held = record {
  ready = refl;
  open_state = refl;
  named = refl;
  stored = refl;
  counted = refl;
  bounded = omega arith;
}

busy-IsValid : IsValid memory busy
busy-IsValid t at = subst (λ t. Held memory busy t) (some-injective transfer t at) busy-Held

abbrev events : List (Event memory sample)
events =
    Event.connected_event (1 ∷ 2 ∷ [])
    ∷ Event.read_event 1 (67 ∷ 68 ∷ [])
    ∷ Event.written_event 1
    ∷ Event.timer_event 1
    ∷ Event.disconnected_event 2
    ∷ Event.close_event
    ∷ []

abbrev kept_path : Text
kept_path = text "in/a"

kept_path-IsComplete : is_part_path kept_path ≡ false
unfolding text text_eq part_suffix
kept_path-IsComplete = refl

kept_path-content : memory.content fresh.world kept_path ≡ some (1 ∷ [])
unfolding text text_eq
kept_path-content = refl

run-IsValid_example : IsValid memory (run memory sample events fresh)
run-IsValid_example = run-IsValid memory_laws sample events fresh refl

run-content_example :
    memory.content (run memory sample events fresh).world kept_path ≡ some (1 ∷ [])
run-content_example =
    run-content memory_laws sample events fresh kept_path (1 ∷ []) refl kept_path-IsComplete
      kept_path-content

abbrev finish : Frame
finish = record { type = file_finish; flags = 0; request_id = 5; payload = [] }

dispatch_frame-files_example :
    (memory.content (dispatch_frame memory sample 1 finish busy).world kept_path
      ≡ memory.content busy.world kept_path)
    ⊎ Published memory busy kept_path (dispatch_frame memory sample 1 finish busy)
dispatch_frame-files_example =
    dispatch_frame-files memory_laws sample 1 finish busy kept_path busy-IsValid
      kept_path-IsComplete

handle_ready_read-Undisturbed_example :
    Undisturbed memory transfer busy (handle_ready_read memory sample 2 (1 ∷ 2 ∷ []) busy)
handle_ready_read-Undisturbed_example =
    handle_ready_read-Undisturbed memory_laws sample transfer 2 refl (1 ∷ 2 ∷ []) busy busy-IsValid
      refl

finish-parses : throws sample finish.payload ≡ false
unfolding throws running
finish-parses = refl

handle_file_finish-gone_example :
    (handle_file_finish memory sample 1 finish busy).active_transfer ≡ none
handle_file_finish-gone_example =
    handle_file_finish-gone memory sample 1 finish transfer busy refl refl finish-parses
