-- ===== src/Service/Controller/Race.antt =====
-- What a scan that sets its state between the two locks of `start_scan` of
-- src/service/ServiceController.cpp can do.
use core_desk.Base.{◌≡◌, refl, false, true, List, [], ◌∷◌}
use core_desk.Base.Eq.{text_has_eq}
use core_desk.Common.{ErrorCode, Error, failure}
use core_desk.Service.Controller.{Outcome, join_finished_scan, enter_scan, finish_scan_state}
use core_desk.Service.Controller.Steps.{
  Action, new_world, finish, step, steps, on_thread, thread_step, overtakes,
}

abbrev unreadable : Error
unreadable = record { code = ErrorCode.path_not_found; message = [] }

-- The second `start_scan` finds the state Scanning and joins nothing; then the first scan sets the
-- state, and the rest of `start_scan` assigns to a thread that was not joined.
abbrev race : List Action
race =
    Action.start_action 1
    ∷ Action.enter_action
    ∷ Action.scan_action (failure unreadable)
    ∷ Action.start_action 2
    ∷ Action.finish_action
    ∷ Action.enter_action
    ∷ []

race-terminates : steps race new_world ≡ Outcome.terminates
unfolding step on_thread thread_step join_finished_scan enter_scan finish finish_scan_state
race-terminates = refl

race-overtakes : overtakes false race ≡ true
race-overtakes = refl
