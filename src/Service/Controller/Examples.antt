-- ===== src/Service/Controller/Examples.antt =====
-- A day of the service of src/service/ServiceController.cpp.
use core_desk.Base.{
  ◌≡◌, refl, ◌++◌, map, true, false, List, [], ◌∷◌, none, some, length, arith, text_eq,
}
use core_desk.Common.{ErrorCode, Error, success, failure}
use core_desk.Index.Snapshot.{EntryType, IndexSnapshot}
use core_desk.Index.IndexBuilder.{ScanOutput, build, build_cancelled, add_record}
use core_desk.Index.IndexBuilder.Postings.{posted, has_from, build-posted}
use core_desk.Base.{All}
use core_desk.Index.SearchEngine.Intersect.{Ascending}
use core_desk.Index.SearchEngine.Postings.{all_candidates}
use core_desk.Index.IndexBuilder.Order.{build-Ascending}
use core_desk.Index.IndexBuilder.Bounds.{build-IsIndexed}
use core_desk.Index.Tokenizer.{tokenize, is_separator, ascii_lower}
use core_desk.Index.SearchEngine.Bounds.{IsIndexed}
use core_desk.Index.SearchEngine.Engine.{make, clear_cache}
use core_desk.Index.SearchEngine.Key.{digits}
use core_desk.Index.LruCache
use core_desk.Service.Controller.{
  ServiceState, new_controller, Outcome, join_finished_scan, enter_scan, finish_scan_state,
  cancel_scan, begin_shutdown, end_shutdown,
}
use core_desk.Service.Controller.Steps.{
  World, Action, new_world, steps, step, overtakes, thread_step, finish,
}
use core_desk.Service.Controller.Invariant.{pending}
use core_desk.Service.Controller.Calls.{Sound}
use core_desk.Service.Controller.Safety.{steps-new_world, steps-completed, steps-generation}

abbrev one_file : ScanOutput
one_file = record {
  root = 47 ∷ [];
  records =
      record {
        id = 0;
        absolute_path = 47 ∷ 97 ∷ [];
        relative_path = 97 ∷ [];
        file_name = 97 ∷ [];
        extension = [];
        size_bytes = 3;
        modified_time = 8;
        type = EntryType.regular_file;
      }
      ∷ [];
}

abbrev unreadable : Error
unreadable = record { code = ErrorCode.path_not_found; message = [] }

-- A scan that is installed, a second one while it runs, one that fails, and one that is cancelled.
abbrev day : List Action
day =
    Action.start_action 7
    ∷ Action.enter_action
    ∷ Action.scan_action (success one_file)
    ∷ Action.start_action 8
    ∷ Action.enter_action
    ∷ Action.build_action (λ n. false)
    ∷ Action.install_action
    ∷ Action.clear_action 20
    ∷ Action.finish_action
    ∷ Action.complete_action
    ∷ Action.start_action 9
    ∷ Action.enter_action
    ∷ Action.scan_action (failure unreadable)
    ∷ Action.finish_action
    ∷ Action.complete_action
    ∷ Action.start_action 10
    ∷ Action.enter_action
    ∷ Action.cancel_action
    ∷ Action.scan_action (success one_file)
    ∷ Action.build_action (λ n. true)
    ∷ Action.begin_shutdown_action
    ∷ Action.finish_action
    ∷ Action.complete_action
    ∷ Action.end_shutdown_action
    ∷ []

steps-new_world_example : Sound (overtakes false day) (steps day new_world)
steps-new_world_example = steps-new_world day

-- The snapshot of the first scan.
abbrev one_snapshot : IndexSnapshot
one_snapshot = record {
  generation = 1;
  root = 47 ∷ [];
  records =
      record {
        id = 1;
        absolute_path = 47 ∷ 97 ∷ [];
        relative_path = 97 ∷ [];
        file_name = 97 ∷ [];
        extension = [];
        size_bytes = 3;
        modified_time = 8;
        type = EntryType.regular_file;
      }
      ∷ [];
  id_to_pos = (1, 0) ∷ [];
  token_index = (97 ∷ [], 1 ∷ []) ∷ [];
  sorted_tokens = (97 ∷ []) ∷ [];
  normalized_names = (97 ∷ 32 ∷ 97 ∷ []) ∷ [];
}

one_snapshot-built : build 1 one_file (λ n. false) ≡ success one_snapshot
unfolding build add_record tokenize is_separator ascii_lower text_eq
one_snapshot-built = refl

abbrev day_end : World
day_end = record {
  controller = record new_controller {
    state = ServiceState.ready;
    shutdown_requested = true;
    cancelled = true;
    active_scan_request_id = 10;
    current_snapshot = some one_snapshot;
    next_generation = 2;
    search_engine = make 128;
  };
  starting = none;
  started = 10 ∷ 9 ∷ 7 ∷ [];
  completed =
      (10, failure build_cancelled)
      ∷ (9, failure unreadable)
      ∷ (7, success (record { scan_id = 55 ∷ []; generation = 1; file_count = 1; elapsed_ms = 20 }))
      ∷ [];
  installed = one_snapshot ∷ [];
}

day_ends : steps day new_world ≡ Outcome.next day_end
unfolding step join_finished_scan enter_scan thread_step finish finish_scan_state cancel_scan
    begin_shutdown end_shutdown build add_record tokenize is_separator ascii_lower clear_cache make
    digits text_eq LruCache.make LruCache.clear
day_ends = refl

steps-completed_example :
    day_end.started ≡ pending day_end.controller.scan_thread ++ map (λ c. c.0) day_end.completed
steps-completed_example = steps-completed day day_end day_ends

steps-generation_example : one_snapshot ≡ one_snapshot
steps-generation_example =
    steps-generation day day_end 0 0 one_snapshot one_snapshot day_ends (omega arith) refl refl refl

build-IsIndexed_example :
    (one_snapshot.generation ≡ 1)
    × (length one_snapshot.records ≡ length one_file.records)
    × IsIndexed one_snapshot
build-IsIndexed_example = build-IsIndexed 1 one_file (λ n. false) one_snapshot one_snapshot-built

build-posted_example :
    posted 1 (97 ∷ []) one_snapshot.token_index ≡ has_from 1 (97 ∷ []) 0 one_file.records
build-posted_example =
    build-posted 1 (97 ∷ []) 1 one_file (λ n. false) one_snapshot one_snapshot-built

build-Ascending_example : All Ascending (all_candidates one_snapshot ((97 ∷ []) ∷ (98 ∷ []) ∷ []))
build-Ascending_example =
    build-Ascending ((97 ∷ []) ∷ (98 ∷ []) ∷ []) 1 one_file (λ n. false) one_snapshot
      one_snapshot-built
