-- ===== src/Concurrency/ThreadPool.antt =====
-- src/concurrency/ThreadPool.cpp: the queue of tasks and the loop of the workers, as steps. A step is
-- what a thread does under one hold of the mutex; a wait on a condition releases the mutex, so that a
-- worker whose condition does not hold goes to sleep until it is notified (or wakes up by itself).
pub mod Workers
pub mod Invariant
pub mod Callers
pub mod Sleepers
pub mod Fairness
pub mod Safety
pub mod Progress
pub mod Examples
use core_desk.Base.{
  ℕ, zero, suc, ◌+◌, ◌-◌, ltb, Bool, true, false, ◌&&◌, ◌||◌, if◌then◌else◌, List, [], ◌∷◌, ◌++◌,
  Option, none, some, length, get_elem?,
}

-- A worker before its test of the condition, asleep in the wait, in a task, or returned from its loop.
-- A task is named by a number.
pub data Worker : Type 0 where
  checking asleep ended : Worker
  running : ℕ → Worker

-- A call of `submit` with its task, or of `wait_idle` (with 0), before its test of the condition, asleep
-- in the wait, or with what it returned.
pub data Caller : Type 0 where
  checking asleep : ℕ → Caller
  returned : Bool → Caller

-- `accepted`, `taken` and `finished` are what happened so far: the tasks for which `submit` returned
-- true, those that workers took off the queue, and those that ended.
pub record ThreadPool : Type 0 where
  pub max_queue_size : ℕ
  pub tasks : List ℕ
  pub workers : List Worker
  pub active_count : ℕ
  pub uncaught_exception_count : ℕ
  pub shutting_down : Bool
  -- Whether `shutdown`, which notifies after it has released the mutex, has done so.
  pub notified : Bool
  -- The calls of `submit` and of `wait_idle`.
  pub submitters : List Caller
  pub idlers : List Caller
  pub accepted : List ℕ
  pub taken : List ℕ
  pub finished : List ℕ

abbrev pub no_tasks : List ℕ → Bool
no_tasks [] = true
no_tasks (t ∷ ts) = false

abbrev pub is_asleep : Worker → Bool
is_asleep Worker.asleep = true
is_asleep _ = false

abbrev pub any_asleep : List Worker → Bool
any_asleep [] = false
any_asleep (w ∷ ws) = is_asleep w || any_asleep ws

abbrev pub set_at : ℕ → Worker → List Worker → List Worker
set_at i w [] = []
set_at zero w (v ∷ vs) = w ∷ vs
set_at (suc i) w (v ∷ vs) = v ∷ set_at i w vs

abbrev pub fresh_workers : ℕ → List Worker
fresh_workers zero = []
fresh_workers (suc n) = Worker.checking ∷ fresh_workers n

-- `notify_one`: one of the workers that sleep wakes up, if there is one: the n-th of them, or the last.
unfoldable pub notify_one : List Worker → ℕ → List Worker
notify_one [] n = []
notify_one (Worker.asleep ∷ ws) zero = Worker.checking ∷ ws
notify_one (Worker.asleep ∷ ws) (suc n) =
    if any_asleep ws then Worker.asleep ∷ notify_one ws n else Worker.checking ∷ ws
notify_one (w ∷ ws) n = w ∷ notify_one ws n

unfoldable pub notify_all : List Worker → List Worker
notify_all [] = []
notify_all (Worker.asleep ∷ ws) = Worker.checking ∷ notify_all ws
notify_all (w ∷ ws) = w ∷ notify_all ws

-- The constructor, which throws without a thread. The workers start their loops.
unfoldable pub make : ℕ → ℕ → Option ThreadPool
make zero max_queue_size = none
make (suc n) max_queue_size = some (record {
  max_queue_size = if ltb 1 max_queue_size then max_queue_size else 1;
  tasks = [];
  workers = fresh_workers (suc n);
  active_count = 0;
  uncaught_exception_count = 0;
  shutting_down = false;
  notified = false;
  submitters = [];
  idlers = [];
  accepted = [];
  taken = [];
  finished = [];
})

abbrev pub is_asleep_caller : Caller → Bool
is_asleep_caller (Caller.asleep task) = true
is_asleep_caller _ = false

abbrev pub any_asleep_caller : List Caller → Bool
any_asleep_caller [] = false
any_asleep_caller (c ∷ cs) = is_asleep_caller c || any_asleep_caller cs

abbrev pub set_caller : ℕ → Caller → List Caller → List Caller
set_caller i c [] = []
set_caller zero c (b ∷ cs) = c ∷ cs
set_caller (suc i) c (b ∷ cs) = b ∷ set_caller i c cs

-- `queue_space_available_.notify_one()`: the n-th of the sleepers, or the last.
unfoldable pub notify_caller : List Caller → ℕ → List Caller
notify_caller [] n = []
notify_caller (Caller.asleep task ∷ cs) zero = Caller.checking task ∷ cs
notify_caller (Caller.asleep task ∷ cs) (suc n) =
    if any_asleep_caller cs
    then Caller.asleep task ∷ notify_caller cs n
    else Caller.checking task ∷ cs
notify_caller (c ∷ cs) n = c ∷ notify_caller cs n

unfoldable pub notify_callers : List Caller → List Caller
notify_callers [] = []
notify_callers (Caller.asleep task ∷ cs) = Caller.checking task ∷ notify_callers cs
notify_callers (c ∷ cs) = c ∷ notify_callers cs

-- A call of `submit`, whose task can be an empty function, up to the mutex.
unfoldable pub call_submit : Option ℕ → ThreadPool → ThreadPool
call_submit none p = record p { submitters = p.submitters ++ Caller.returned false ∷ [] }
call_submit (some task) p = record p { submitters = p.submitters ++ Caller.checking task ∷ [] }

-- The i-th call of `submit` tests its condition, and which worker it notifies.
unfoldable pub submit : ℕ → ℕ → ℕ → ThreadPool → ThreadPool
unfolding notify_one
submit i task n p =
    if p.shutting_down
    then record p { submitters = set_caller i (Caller.returned false) p.submitters }
    else if ltb (length p.tasks) p.max_queue_size
    then record p {
      tasks = p.tasks ++ task ∷ [];
      workers = notify_one p.workers n;
      accepted = p.accepted ++ task ∷ [];
      submitters = set_caller i (Caller.returned true) p.submitters;
    }
    else record p { submitters = set_caller i (Caller.asleep task) p.submitters }

-- A worker that has the mutex looks at the queue, and which caller it notifies.
unfoldable pub look : ℕ → ℕ → ThreadPool → List ℕ → ThreadPool
unfolding notify_caller
look i m p [] =
    if p.shutting_down
    then record p { workers = set_at i Worker.ended p.workers }
    else record p { workers = set_at i Worker.asleep p.workers }
look i m p (task ∷ tasks) = record p {
  tasks = tasks;
  active_count = p.active_count + 1;
  workers = set_at i (Worker.running task) p.workers;
  taken = p.taken ++ task ∷ [];
  submitters = notify_caller p.submitters m;
}

-- A task ends, by an exception or without.
unfoldable pub finish : ℕ → ℕ → Bool → ThreadPool → ThreadPool
unfolding notify_callers
finish i task threw p = record p {
  uncaught_exception_count =
      if threw then p.uncaught_exception_count + 1 else p.uncaught_exception_count;
  active_count = p.active_count - 1;
  workers = set_at i Worker.checking p.workers;
  finished = p.finished ++ task ∷ [];
  idlers =
      if no_tasks p.tasks && ltb (p.active_count - 1) 1 then notify_callers p.idlers else p.idlers;
}

-- `shutdown` under the mutex. A second call returns at once.
unfoldable pub start_shutdown : ThreadPool → ThreadPool
start_shutdown p = if p.shutting_down then p else record p { shutting_down = true }

-- `shutdown` when it has released the mutex.
unfoldable pub notify_shutdown : ThreadPool → ThreadPool
unfolding notify_all notify_callers
notify_shutdown p =
    if p.shutting_down
    then record p {
      notified = true;
      workers = notify_all p.workers;
      submitters = notify_callers p.submitters;
    }
    else p

abbrev pub all_ended : List Worker → Bool
all_ended [] = true
all_ended (Worker.ended ∷ ws) = all_ended ws
all_ended (w ∷ ws) = false

-- Whether the joins of `shutdown` have returned.
unfoldable pub is_shut_down : ThreadPool → Bool
is_shut_down p = p.notified && all_ended p.workers

-- `shutdown` after its joins.
unfoldable pub finish_shutdown : ThreadPool → ThreadPool
unfolding is_shut_down notify_callers
finish_shutdown p = if is_shut_down p then record p { idlers = notify_callers p.idlers } else p

unfoldable pub is_idle : ThreadPool → Bool
is_idle p = no_tasks p.tasks && ltb p.active_count 1

-- A call of `wait_idle` up to the mutex, and its test of the condition.
unfoldable pub call_wait_idle : ThreadPool → ThreadPool
call_wait_idle p = record p { idlers = p.idlers ++ Caller.checking 0 ∷ [] }

unfoldable pub wait_idle : ℕ → ThreadPool → ThreadPool
unfolding is_idle
wait_idle i p = record p {
  idlers = set_caller i (if is_idle p then Caller.returned true else Caller.asleep 0) p.idlers;
}

-- What a thread does, or that a sleeper wakes up by itself.
pub data Action : Type 0 where
  submit_action : Option ℕ → Action
  test_submit_action : ℕ → ℕ → Action
  wait_idle_action : Action
  test_idle_action wake_submitter_action wake_idler_action : ℕ → Action
  look_action : ℕ → ℕ → Action
  wake_action : ℕ → Action
  finish_action : ℕ → Bool → Action
  shutdown_action notify_action finish_shutdown_action : Action

-- A step of a worker, in the phase that it is in.
unfoldable pub worker_step : Action → ℕ → Option Worker → ThreadPool → Option ThreadPool
unfolding look finish
worker_step (Action.look_action j m) i (some Worker.checking) p = some (look i m p p.tasks)
worker_step (Action.wake_action j) i (some Worker.asleep) p =
    some (record p { workers = set_at i Worker.checking p.workers })
worker_step (Action.finish_action j threw) i (some (Worker.running task)) p =
    some (finish i task threw p)
worker_step a i w p = none

-- A step of a call of `submit`, and of one of `wait_idle`.
unfoldable pub submit_step : Action → ℕ → Option Caller → ThreadPool → Option ThreadPool
unfolding submit
submit_step (Action.test_submit_action j n) i (some (Caller.checking task)) p =
    some (submit i task n p)
submit_step (Action.wake_submitter_action j) i (some (Caller.asleep task)) p =
    some (record p { submitters = set_caller i (Caller.checking task) p.submitters })
submit_step a i c p = none

unfoldable pub idle_step : Action → ℕ → Option Caller → ThreadPool → Option ThreadPool
unfolding wait_idle
idle_step (Action.test_idle_action j) i (some (Caller.checking task)) p = some (wait_idle i p)
idle_step (Action.wake_idler_action j) i (some (Caller.asleep task)) p =
    some (record p { idlers = set_caller i (Caller.checking task) p.idlers })
idle_step a i c p = none

-- `none` where the action does not apply.
unfoldable pub step : Action → ThreadPool → Option ThreadPool
unfolding call_submit call_wait_idle submit_step idle_step worker_step start_shutdown
    notify_shutdown finish_shutdown
step (Action.submit_action task) p = some (call_submit task p)
step (Action.test_submit_action i n) p =
    submit_step (Action.test_submit_action i n) i (get_elem? p.submitters i) p
step (Action.wake_submitter_action i) p =
    submit_step (Action.wake_submitter_action i) i (get_elem? p.submitters i) p
step Action.wait_idle_action p = some (call_wait_idle p)
step (Action.test_idle_action i) p =
    idle_step (Action.test_idle_action i) i (get_elem? p.idlers i) p
step (Action.wake_idler_action i) p =
    idle_step (Action.wake_idler_action i) i (get_elem? p.idlers i) p
step (Action.look_action i m) p = worker_step (Action.look_action i m) i (get_elem? p.workers i) p
step (Action.wake_action i) p = worker_step (Action.wake_action i) i (get_elem? p.workers i) p
step (Action.finish_action i threw) p =
    worker_step (Action.finish_action i threw) i (get_elem? p.workers i) p
step Action.shutdown_action p = some (start_shutdown p)
step Action.notify_action p = some (notify_shutdown p)
step Action.finish_shutdown_action p = some (finish_shutdown p)

-- An action that cannot be done is not done.
abbrev pub after : Option ThreadPool → ThreadPool → ThreadPool
after none p = p
after (some p') p = p'

abbrev pub run : List Action → ThreadPool → ThreadPool
run [] p = p
run (a ∷ later) p = run later (after (step a p) p)
