-- ===== src/Concurrency/ThreadPool/Safety.antt =====
-- The pool over any steps of its callers and workers.
use core_desk.Base.{
  ℕ, zero, suc, ltb, ◌≡◌, refl, sym, ap, ◌∙◌, subst, true, false, Bool-cases, inl, inr, &&-right,
  List, [], ◌∷◌, ◌++◌, Option, none, some, length, get_elem?, arith, append-nil,
}
use mathlib.Core.Option.{some-injective}
use core_desk.Concurrency.ThreadPool.{
  Worker, Caller, ThreadPool, no_tasks, make, fresh_workers, call_submit, submit, call_wait_idle,
  wait_idle, finish_shutdown, all_ended, is_shut_down, Action, worker_step, submit_step, idle_step,
  step, after, run,
}
use core_desk.Concurrency.ThreadPool.Workers.{
  running_count, any_ended, all_ended-running_count, all_ended-awake,
}
use core_desk.Concurrency.ThreadPool.Invariant.{
  IsValid, either, callers-IsValid, accept-IsValid, look-IsValid, wake-IsValid, finish-IsValid,
  start_shutdown-IsValid, notify_shutdown-IsValid,
}

submit-IsValid : (i task n : ℕ) (p : ThreadPool) → IsValid p → IsValid (submit i task n p)
unfolding submit
submit-IsValid i task n p v =
    either IsValid p.shutting_down _ _ (λ shut. callers-IsValid _ p.idlers p v)
      (λ open_pool.
        either IsValid (ltb (length p.tasks) p.max_queue_size) _ _
          (λ room. accept-IsValid i task n p v open_pool room)
          (λ full. callers-IsValid _ p.idlers p v))

submit_step-IsValid :
    (a : Action) (i : ℕ) (o : Option Caller) (p : ThreadPool)
    → IsValid p
    → IsValid (after (submit_step a i o p) p)
unfolding submit_step
submit_step-IsValid (Action.test_submit_action j n) i (some (Caller.checking task)) p v =
    submit-IsValid i task n p v
submit_step-IsValid (Action.wake_submitter_action j) i (some (Caller.asleep task)) p v =
    callers-IsValid _ p.idlers p v
submit_step-IsValid _ i _ p v = v

idle_step-IsValid :
    (a : Action) (i : ℕ) (o : Option Caller) (p : ThreadPool)
    → IsValid p
    → IsValid (after (idle_step a i o p) p)
unfolding idle_step wait_idle
idle_step-IsValid (Action.test_idle_action j) i (some (Caller.checking task)) p v =
    callers-IsValid p.submitters _ p v
idle_step-IsValid (Action.wake_idler_action j) i (some (Caller.asleep task)) p v =
    callers-IsValid p.submitters _ p v
idle_step-IsValid _ i _ p v = v

call_submit-IsValid : (task : Option ℕ) (p : ThreadPool) → IsValid p → IsValid (call_submit task p)
unfolding call_submit
call_submit-IsValid none p v = callers-IsValid _ p.idlers p v
call_submit-IsValid (some task) p v = callers-IsValid _ p.idlers p v

finish_shutdown-IsValid : (p : ThreadPool) → IsValid p → IsValid (finish_shutdown p)
unfolding finish_shutdown
finish_shutdown-IsValid p v =
    either IsValid (is_shut_down p) _ _ (λ down. callers-IsValid p.submitters _ p v) (λ up. v)

worker_step-IsValid :
    (a : Action) (i : ℕ) (o : Option Worker) (p : ThreadPool)
    → IsValid p
    → get_elem? p.workers i ≡ o
    → IsValid (after (worker_step a i o p) p)
unfolding worker_step
worker_step-IsValid (Action.look_action j m) i (some Worker.checking) p v here =
    look-IsValid i m p p.tasks v refl here
worker_step-IsValid (Action.wake_action j) i (some Worker.asleep) p v here = wake-IsValid i p v here
worker_step-IsValid (Action.finish_action j threw) i (some (Worker.running task)) p v here =
    finish-IsValid i task threw p v here
worker_step-IsValid _ i _ p v here = v

step-IsValid : (a : Action) (p : ThreadPool) → IsValid p → IsValid (after (step a p) p)
unfolding step call_wait_idle
step-IsValid (Action.submit_action task) p v = call_submit-IsValid task p v
step-IsValid (Action.test_submit_action i n) p v =
    submit_step-IsValid (Action.test_submit_action i n) i (get_elem? p.submitters i) p v
step-IsValid (Action.wake_submitter_action i) p v =
    submit_step-IsValid (Action.wake_submitter_action i) i (get_elem? p.submitters i) p v
step-IsValid Action.wait_idle_action p v = callers-IsValid p.submitters _ p v
step-IsValid (Action.test_idle_action i) p v =
    idle_step-IsValid (Action.test_idle_action i) i (get_elem? p.idlers i) p v
step-IsValid (Action.wake_idler_action i) p v =
    idle_step-IsValid (Action.wake_idler_action i) i (get_elem? p.idlers i) p v
step-IsValid (Action.look_action i m) p v =
    worker_step-IsValid (Action.look_action i m) i (get_elem? p.workers i) p v refl
step-IsValid (Action.wake_action i) p v =
    worker_step-IsValid (Action.wake_action i) i (get_elem? p.workers i) p v refl
step-IsValid (Action.finish_action i threw) p v =
    worker_step-IsValid (Action.finish_action i threw) i (get_elem? p.workers i) p v refl
step-IsValid Action.shutdown_action p v = start_shutdown-IsValid p v
step-IsValid Action.notify_action p v = notify_shutdown-IsValid p v
step-IsValid Action.finish_shutdown_action p v = finish_shutdown-IsValid p v

run-IsValid : (actions : List Action) (p : ThreadPool) → IsValid p → IsValid (run actions p)
run-IsValid [] p v = v
run-IsValid (a ∷ actions) p v = run-IsValid actions (after (step a p) p) (step-IsValid a p v)

fresh-running : (n : ℕ) → running_count (fresh_workers n) ≡ 0
fresh-running zero = refl
fresh-running (suc n) = omega (arith, fresh-running n)

fresh-ended : (n : ℕ) → any_ended (fresh_workers n) ≡ false
fresh-ended zero = refl
fresh-ended (suc n) = fresh-ended n

fresh-IsValid : (n max_queue_size : ℕ) (p : ThreadPool) → make n max_queue_size ≡ some p → IsValid p
unfolding make
fresh-IsValid zero m p h = absurd (cc)
fresh-IsValid (suc n) m p h = subst IsValid (some-injective _ p h) (record {
  staffed = omega arith;
  bounded = omega arith;
  counted = omega (arith, fresh-running n);
  in_order = refl;
  done = refl;
  awake = λ some_task. absurd (cc);
  over = λ e. absurd (let none_ended = fresh-ended n in cc);
  woken = λ shut. absurd (cc);
})

-- From a new pool on, whatever its callers submit and in whatever order its threads run, sleep, are
-- notified, wake up by themselves, end tasks and shut down: the tasks that were taken and then those
-- that are queued are the tasks that were accepted, in that order, and the queue is no longer than its
-- limit; the count of active tasks is that of the workers that run one; no wake-up is lost, so that with
-- a task in the queue some worker is awake; and a worker ends only at the shutdown, with an empty queue.
pub run_new-IsValid :
    (n max_queue_size : ℕ) (p : ThreadPool) (actions : List Action)
    → make n max_queue_size ≡ some p
    → IsValid (run actions p)
run_new-IsValid n m p actions h = run-IsValid actions p (fresh-IsValid n m p h)

no_tasks-nil : (ts : List ℕ) → no_tasks ts ≡ true → ts ≡ []
no_tasks-nil [] h = refl
no_tasks-nil (t ∷ ts) h = absurd (cc)

-- When the joins of a shutdown have returned, each task that was accepted was taken, in the order in
-- which they were accepted, and as many have ended as were accepted.
pub is_shut_down-finished :
    (n max_queue_size : ℕ) (p : ThreadPool) (actions : List Action)
    → make n max_queue_size ≡ some p
    → is_shut_down (run actions p) ≡ true
    → ((run actions p).taken ≡ (run actions p).accepted)
      × (length (run actions p).finished ≡ length (run actions p).accepted)
unfolding is_shut_down
is_shut_down-finished n m p actions h down =
    let q : ThreadPool = run actions p in
    let v : IsValid q = run_new-IsValid n m p actions h in
    let ended : all_ended q.workers ≡ true = &&-right q.notified (all_ended q.workers) down in
    let empty : q.tasks ≡ [] = elim (Bool-cases (no_tasks q.tasks)) [
      | inl none_left ↦ no_tasks-nil q.tasks none_left
      | inr waiting ↦
          absurd (let awake = v.awake waiting in let still = all_ended-awake q.workers ended in cc)
    ] in
    let all_taken : q.taken ≡ q.accepted =
      sym (append-nil q.taken) ∙ ap (λ x. q.taken ++ x) (sym empty) ∙ v.in_order in
    (
      all_taken,
      omega
          (arith, v.done, v.counted, all_ended-running_count q.workers ended, ap length all_taken),
    )
