-- ===== src/Service/Controller.antt =====
-- src/service/ServiceController.cpp. A step is what happens under one hold of a lock. `cancelled` is
-- the flag that the active cancellation source shares with the scan thread.
pub mod Steps
pub mod Invariant
pub mod ThreadSteps
pub mod Calls
pub mod Windows
pub mod Safety
pub mod Race
pub mod Examples
use core_desk.Base.{
  ℕ, suc, ◌+◌, ◌%◌, ◌^◌, if◌then◌else◌, Bool, true, false, List, [], ◌∷◌, Option, none, some,
  length,
}
use core_desk.Common.{
  Text, text, ErrorCode, Error, Result, success, failure, VoidResult, void_success, void_failure,
  invalid,
}
use core_desk.Index.Snapshot.{IndexSnapshot}
use core_desk.Index.IndexBuilder.{ScanOutput, build}
use core_desk.Index.SearchEngine.Engine.{
  SearchEngine, SearchRequest, SearchResponse, make, clear_cache, search,
}
use core_desk.Index.SearchEngine.Key.{to_decimal}
use core_desk.Protocol.Payload.Scan.{ScanCompletedPayload}

pub data ServiceState : Type 0 where
  no_index scanning ready : ServiceState

abbrev pub is_scanning : ServiceState → Bool
is_scanning ServiceState.scanning = true
is_scanning _ = false

-- Where the scan thread is: in `scan`, in `build`, before the snapshot is installed, before the
-- cache is cleared, before `finish_scan_state(installed)`, before `complete_scan`, or at its end.
pub data Phase : Type 0 where
  scan_phase : Phase
  build_phase : ScanOutput → Phase
  install_phase : IndexSnapshot → Phase
  clear_phase : IndexSnapshot → Phase
  finish_phase : Bool → Result ScanCompletedPayload → Phase
  complete_phase : Result ScanCompletedPayload → Phase
  ended_phase : Phase

pub record Thread : Type 0 where
  pub request_id : ℕ
  pub phase : Phase

pub record Controller : Type 0 where
  pub state : ServiceState
  pub shutdown_requested : Bool
  pub cancelled : Bool
  pub active_scan_request_id : ℕ
  pub scan_thread : Option Thread
  pub current_snapshot : Option IndexSnapshot
  pub next_generation : ℕ
  pub search_engine : SearchEngine

pub record ScanStarted : Type 0 where
  pub scan_id : Text

pub record ServiceStatus : Type 0 where
  pub state : ServiceState
  pub generation : ℕ
  pub file_count : ℕ
  pub scan_active : Bool

abbrev pub new_controller : Controller
new_controller = record {
  state = ServiceState.no_index;
  shutdown_requested = false;
  cancelled = false;
  active_scan_request_id = 0;
  scan_thread = none;
  current_snapshot = none;
  next_generation = 1;
  search_engine = make 128;
}

-- What a call does that can wait, or that ends the program by `std::terminate`.
pub data Outcome {ℓ} (A : Type ℓ) : Type ℓ where
  next : A → Outcome A
  waits terminates : Outcome A

abbrev pub then_next {ℓ κ} : {A : Type ℓ} {B : Type κ} → Outcome A → (A → Outcome B) → Outcome B
then_next (Outcome.next a) f = f a
then_next Outcome.waits f = Outcome.waits
then_next Outcome.terminates f = Outcome.terminates

abbrev pub is_ended : Phase → Bool
is_ended Phase.ended_phase = true
is_ended _ = false

-- `scan_thread_.join()` of a thread that can be joined.
unfoldable pub join_thread : Controller → Thread → Outcome Controller
join_thread c t =
    if is_ended t.phase then Outcome.next (record c { scan_thread = none }) else Outcome.waits

unfoldable pub join_finished_scan : Controller → Outcome Controller
join_finished_scan c = elim c.scan_thread [
  | none ↦ Outcome.next c
  | some t ↦ if is_scanning c.state then Outcome.next c else join_thread c t
]

-- `start_scan` under its own lock, after `join_finished_scan` has left the lock. To assign to a thread object that can still be joined ends
-- the program.
unfoldable pub enter_scan : ℕ → Controller → Outcome (Controller × Result ScanStarted)
enter_scan request_id c =
    if c.shutdown_requested
    then Outcome.next (
      c,
      failure (record { code = ErrorCode.cancelled; message = text "service is shutting down" }),
    )
    else if is_scanning c.state
    then Outcome.next
        (c, failure (record { code = ErrorCode.busy; message = text "scan already in progress" }))
    else elim c.scan_thread [
      | some t ↦ Outcome.terminates
      | none ↦ Outcome.next (
        record c {
          state = ServiceState.scanning;
          cancelled = false;
          active_scan_request_id = request_id;
          scan_thread = some (record { request_id = request_id; phase = Phase.scan_phase });
        },
        success (record { scan_id = to_decimal request_id }),
      )
    ]

unfoldable pub cancel_scan : Controller → Controller × VoidResult
cancel_scan c =
    if is_scanning c.state
    then (record c { cancelled = true }, void_success)
    else (c, void_failure (invalid (text "no active scan")))

abbrev pub state_of : Option IndexSnapshot → ServiceState
state_of none = ServiceState.no_index
state_of (some snapshot) = ServiceState.ready

-- `shutdown` up to the join. A second call returns at once.
unfoldable pub begin_shutdown : Controller → Controller
begin_shutdown c = if c.shutdown_requested then c else record c {
  shutdown_requested = true;
  cancelled = if is_scanning c.state then true else c.cancelled;
}

-- `shutdown` from the join on.
unfoldable pub end_shutdown : Controller → Outcome Controller
unfolding join_thread
end_shutdown c =
    then_next (elim c.scan_thread [ none ↦ Outcome.next c | some t ↦ join_thread c t ])
      λ c'. Outcome.next (record c' { state = state_of c'.current_snapshot })

unfoldable pub finish_scan_state : Bool → Controller → Controller
finish_scan_state installed c =
    if c.shutdown_requested
    then c
    else record c { state = if installed then ServiceState.ready else state_of c.current_snapshot }

unfoldable pub status : Controller → ServiceStatus
status c = elim c.current_snapshot [
  | none ↦ record {
    state = c.state;
    generation = 0;
    file_count = 0;
    scan_active = is_scanning c.state;
  }
  | some s ↦ record {
    state = c.state;
    generation = s.generation;
    file_count = length s.records;
    scan_active = is_scanning c.state;
  }
]
