-- ===== src/Concurrency/ThreadPool/Examples.antt =====
-- A pool of two threads that runs tasks and shuts down.
use core_desk.Base.{◌≡◌, refl, true, false, List, [], ◌∷◌, some, length}
use core_desk.Concurrency.ThreadPool.{
  Worker, ThreadPool, any_asleep_caller, make, notify_one, notify_all, notify_caller,
  notify_callers, call_submit, submit, call_wait_idle, wait_idle, is_idle, look, finish,
  start_shutdown, notify_shutdown, finish_shutdown, is_shut_down, Action, worker_step, submit_step,
  idle_step, step, run,
}
use core_desk.Concurrency.ThreadPool.Invariant.{IsValid}
use core_desk.Concurrency.ThreadPool.Safety.{run_new-IsValid, is_shut_down-finished}
use core_desk.Concurrency.ThreadPool.Progress.{Waits, Moves, run_new-Moves}

abbrev pool : ThreadPool
pool = record {
  max_queue_size = 2;
  tasks = [];
  workers = Worker.checking ∷ Worker.checking ∷ [];
  active_count = 0;
  uncaught_exception_count = 0;
  shutting_down = false;
  notified = false;
  submitters = [];
  idlers = [];
  accepted = [];
  taken = [];
  finished = [];
}

pool-made : make 2 2 ≡ some pool
unfolding make
pool-made = refl

-- Both workers go to sleep, two submits wake one of them each, and a third one finds the queue full.
abbrev crowd : List Action
crowd =
    Action.look_action 0 0
    ∷ Action.look_action 1 0
    ∷ Action.submit_action (some 7)
    ∷ Action.submit_action (some 8)
    ∷ Action.submit_action (some 9)
    ∷ Action.test_submit_action 0 1
    ∷ Action.test_submit_action 1 0
    ∷ Action.test_submit_action 2 0
    ∷ []

-- A worker takes a task, which lets the third submit in; then the pool shuts down.
abbrev session : List Action
session =
    Action.submit_action (some 7)
    ∷ Action.submit_action (some 8)
    ∷ Action.submit_action (some 9)
    ∷ Action.test_submit_action 0 1
    ∷ Action.test_submit_action 1 0
    ∷ Action.test_submit_action 2 0
    ∷ Action.look_action 1 0
    ∷ Action.test_submit_action 2 0
    ∷ Action.wait_idle_action
    ∷ Action.test_idle_action 0
    ∷ Action.shutdown_action
    ∷ Action.submit_action (some 10)
    ∷ Action.test_submit_action 3 0
    ∷ Action.notify_action
    ∷ Action.look_action 0 0
    ∷ Action.finish_action 1 true
    ∷ Action.look_action 1 0
    ∷ Action.finish_action 0 false
    ∷ Action.finish_action 1 false
    ∷ Action.look_action 0 0
    ∷ Action.look_action 1 0
    ∷ Action.finish_shutdown_action
    ∷ Action.test_idle_action 0
    ∷ []

pool_steps : Unit {0}
unfolding step call_submit submit call_wait_idle wait_idle is_idle worker_step submit_step idle_step
    look finish start_shutdown notify_shutdown finish_shutdown is_shut_down notify_one notify_all
    notify_caller notify_callers
pool_steps = tt

session-down : is_shut_down (run session pool) ≡ true
unfolding pool_steps
session-down = refl

session-taken : (run session pool).taken ≡ 7 ∷ 8 ∷ 9 ∷ []
unfolding pool_steps
session-taken = refl

crowd-asleep : any_asleep_caller (run crowd pool).submitters ≡ true
unfolding pool_steps
crowd-asleep = refl

run_new-IsValid_example : IsValid (run session pool)
run_new-IsValid_example = run_new-IsValid 2 2 pool session pool-made

run_new-Moves_example : Moves (run crowd pool)
run_new-Moves_example = run_new-Moves 2 2 pool crowd pool-made (Waits.submitter crowd-asleep)

is_shut_down-finished_example :
    ((run session pool).taken ≡ (run session pool).accepted)
    × (length (run session pool).finished ≡ length (run session pool).accepted)
is_shut_down-finished_example = is_shut_down-finished 2 2 pool session pool-made session-down
