-- ===== src/Service/Controller/Steps.antt =====
-- The steps of src/service/ServiceController.cpp: calls of one client, and of the scan thread, in any
-- order. What the file system, the clock and exceptions decide is in the step.
use core_desk.Base.{
  ℕ, ◌+◌, ◌%◌, ◌^◌, ◌||◌, if◌then◌else◌, Bool, true, false, List, [], ◌∷◌, Option, none, some,
  length,
}
use core_desk.Common.{Text, ErrorCode, Error, Result, success, failure}
use core_desk.Index.Snapshot.{IndexSnapshot}
use core_desk.Index.IndexBuilder.{ScanOutput, build}
use core_desk.Index.SearchEngine.Engine.{clear_cache}
use core_desk.Index.SearchEngine.Key.{to_decimal}
use core_desk.Protocol.Payload.Scan.{ScanCompletedPayload}
use core_desk.Service.Controller.{
  Phase, Thread, Controller, new_controller, Outcome, then_next, ScanStarted, join_finished_scan,
  enter_scan, cancel_scan, begin_shutdown, end_shutdown, finish_scan_state,
}

-- The controller, and what was seen of it: the scans that were started and the completion callbacks
-- that were called, and the snapshots that were installed, the latest first.
pub record World : Type 0 where
  pub controller : Controller
  -- The request of a `start_scan` that has returned from `join_finished_scan`, and waits for the lock.
  pub starting : Option ℕ
  pub started : List ℕ
  pub completed : List (ℕ × Result ScanCompletedPayload)
  pub installed : List IndexSnapshot

abbrev pub new_world : World
new_world = record {
  controller = new_controller;
  starting = none;
  started = [];
  completed = [];
  installed = [];
}

pub data Action : Type 0 where
  -- `join_finished_scan` of a `start_scan`, and the rest of it. One call of `start_scan` at a time.
  start_action : ℕ → Action
  enter_action : Action
  cancel_action begin_shutdown_action end_shutdown_action : Action
  -- `scan` returns a result, or throws.
  scan_action : Result ScanOutput → Action
  -- `build` runs, with what its token says each time; or it throws.
  build_action : (ℕ → Bool) → Action
  throw_action : Text → Action
  -- The snapshot is installed; the cache is cleared, after a time; the state is set; the callback is
  -- called.
  install_action : Action
  clear_action : ℕ → Action
  finish_action complete_action : Action

abbrev pub at_phase : World → Thread → Phase → World
at_phase w t phase = record w {
  controller = record w.controller { scan_thread = some (record t { phase = phase }) };
}

-- A scan that fails goes on with `finish_scan_state(false)` and its error.
abbrev pub failed : Error → Phase
failed e = Phase.finish_phase false (failure e)

abbrev pub after_scan : Result ScanOutput → Phase
after_scan (failure e) = failed e
after_scan (success output) = Phase.build_phase output

abbrev pub after_build : Result IndexSnapshot → Phase
after_build (failure e) = failed e
after_build (success snapshot) = Phase.install_phase snapshot

abbrev pub thrown : Text → Phase
thrown what = failed (record { code = ErrorCode.internal_error; message = what })

-- `current_snapshot_ = snapshot; next_generation_ = generation + 1;`.
unfoldable pub install : World → Thread → IndexSnapshot → World
install w t snapshot = record w {
  controller = record w.controller {
    current_snapshot = some snapshot;
    next_generation = (snapshot.generation + 1) % 2 ^ 64;
    scan_thread = some (record t { phase = Phase.clear_phase snapshot });
  };
  installed = snapshot ∷ w.installed;
}

abbrev pub completed_payload : Thread → IndexSnapshot → ℕ → ScanCompletedPayload
completed_payload t snapshot elapsed = record {
  scan_id = to_decimal t.request_id;
  generation = snapshot.generation;
  file_count = length snapshot.records;
  elapsed_ms = elapsed;
}

-- `finish_scan_state`, on the way to `complete_scan`.
unfoldable pub finish : World → Thread → Bool → Result ScanCompletedPayload → World
finish w t installed r = record w {
  controller =
      finish_scan_state installed
        (record w.controller { scan_thread = some (record t { phase = Phase.complete_phase r }) });
}

-- A step of the scan thread; it waits where it has no such step.
unfoldable pub thread_step : Phase → Action → Thread → World → Outcome World
unfolding install
thread_step Phase.scan_phase (Action.scan_action r) t w = Outcome.next (at_phase w t (after_scan r))
thread_step Phase.scan_phase (Action.throw_action what) t w =
    Outcome.next (at_phase w t (thrown what))
thread_step (Phase.build_phase output) (Action.build_action cancelled) t w =
    Outcome.next (at_phase w t (after_build (build w.controller.next_generation output cancelled)))
thread_step (Phase.build_phase output) (Action.throw_action what) t w =
    Outcome.next (at_phase w t (thrown what))
thread_step (Phase.install_phase snapshot) Action.install_action t w =
    Outcome.next (install w t snapshot)
thread_step (Phase.clear_phase snapshot) (Action.clear_action elapsed) t w =
    Outcome.next (record w {
      controller = record w.controller {
        search_engine = clear_cache w.controller.search_engine;
        scan_thread = some (record t {
          phase = Phase.finish_phase true (success (completed_payload t snapshot elapsed));
        });
      };
    })
thread_step (Phase.finish_phase installed r) Action.finish_action t w =
    Outcome.next (finish w t installed r)
thread_step (Phase.complete_phase r) Action.complete_action t w = Outcome.next (record w {
  controller = record w.controller { scan_thread = some (record t { phase = Phase.ended_phase }) };
  completed = (t.request_id, r) ∷ w.completed;
})
thread_step _ _ t w = Outcome.waits

abbrev pub with_started : ℕ → World → Controller × Result ScanStarted → Outcome World
with_started id w (c, failure e) = Outcome.next (record w { controller = c })
with_started id w (c, success s) =
    Outcome.next (record w { controller = c; started = id ∷ w.started })

unfoldable pub on_thread : Action → World → Outcome World
unfolding thread_step
on_thread action w = elim w.controller.scan_thread [
  | none ↦ Outcome.waits
  | some t ↦ thread_step t.phase action t w
]

unfoldable pub join_step : ℕ → Option ℕ → World → Outcome World
join_step id none w =
    then_next (join_finished_scan w.controller)
      (λ c. Outcome.next (record w { controller = c; starting = some id }))
join_step id (some other) w = Outcome.waits

unfoldable pub enter_step : Option ℕ → World → Outcome World
enter_step none w = Outcome.waits
enter_step (some id) w =
    then_next (enter_scan id w.controller) (with_started id (record w { starting = none }))

unfoldable pub step : Action → World → Outcome World
unfolding on_thread join_step enter_step
step (Action.start_action id) w = join_step id w.starting w
step Action.enter_action w = enter_step w.starting w
step Action.cancel_action w = Outcome.next (record w { controller = (cancel_scan w.controller).0 })
step Action.begin_shutdown_action w =
    Outcome.next (record w { controller = begin_shutdown w.controller })
step Action.end_shutdown_action w =
    if w.controller.shutdown_requested
    then then_next (end_shutdown w.controller) (λ c. Outcome.next (record w { controller = c }))
    else Outcome.waits
step action w = on_thread action w

-- Any actions, one after the other.
abbrev pub steps : List Action → World → Outcome World
steps [] w = Outcome.next w
steps (action ∷ actions) w = then_next (step action w) (steps actions)

-- Whether a scan sets its state between the two locks of a `start_scan`; `seen` tells whether one did
-- since the last `join_finished_scan`.
abbrev pub overtakes : Bool → List Action → Bool
overtakes seen [] = false
overtakes seen (Action.start_action id ∷ later) = overtakes false later
overtakes seen (Action.enter_action ∷ later) = seen || overtakes seen later
overtakes seen (Action.finish_action ∷ later) = overtakes true later
overtakes seen (action ∷ later) = overtakes seen later
