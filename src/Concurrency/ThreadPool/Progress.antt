-- ===== src/Concurrency/ThreadPool/Progress.antt =====
-- No deadlock: where a call waits, some thread goes on.
use core_desk.Base.{
  ℕ, ◌+◌, ltb, ltb→le, ◌≡◌, ◌≤◌, refl, ap, subst, true, false, Bool-cases, inl, inr, ◌&&◌, List, [],
  ◌∷◌, some, length, get_elem?, arith,
}
use core_desk.Concurrency.ThreadPool.{
  Worker, ThreadPool, no_tasks, any_asleep_caller, make, submit, is_idle, look, finish, all_ended,
  is_shut_down, Action, worker_step, submit_step, step, run,
}
use core_desk.Concurrency.ThreadPool.Workers.{
  is_awake, any_awake, awake_at, any_awake-left, running_count-awake,
}
use core_desk.Concurrency.ThreadPool.Callers.{awake_count, caller_at}
use core_desk.Concurrency.ThreadPool.Invariant.{IsValid}
use core_desk.Concurrency.ThreadPool.Sleepers.{IsFair}
use core_desk.Concurrency.ThreadPool.Fairness.{run-IsFair, make-IsFair}
use core_desk.Concurrency.ThreadPool.Safety.{run_new-IsValid}

-- A thread goes on: worker i looks at the queue or ends its task, the i-th call of `submit` tests its
-- condition, or the `shutdown` that has set its flag has still to notify.
pub data Moves (p : ThreadPool) : Type 0 where
  looks : (i : ℕ) (p' : ThreadPool) → step (Action.look_action i 0) p ≡ some p' → Moves p
  ends : (i : ℕ) (p' : ThreadPool) → step (Action.finish_action i false) p ≡ some p' → Moves p
  tests : (i : ℕ) (p' : ThreadPool) → step (Action.test_submit_action i 0) p ≡ some p' → Moves p
  notifies : p.shutting_down ≡ true → p.notified ≡ false → Moves p

-- Something is waited for: a call of `submit` or of `wait_idle` sleeps, a task is in the queue, or the
-- joins of a shutdown that has notified have not returned.
pub data Waits (p : ThreadPool) : Type 0 where
  submitter : any_asleep_caller p.submitters ≡ true → Waits p
  idler : any_asleep_caller p.idlers ≡ true → Waits p
  queued : no_tasks p.tasks ≡ false → Waits p
  joins : p.notified ≡ true → is_shut_down p ≡ false → Waits p

worker-Moves :
    (i : ℕ) (w : Worker) (p : ThreadPool)
    → get_elem? p.workers i ≡ some w
    → is_awake w ≡ true
    → Moves p
unfolding step worker_step
worker-Moves i Worker.checking p at awake =
    Moves.looks i (look i 0 p p.tasks) (simp (at, step, worker_step) refl)
worker-Moves i (Worker.running task) p at awake =
    Moves.ends i (finish i task false p) (simp (at, step, worker_step) refl)
worker-Moves i _ p at awake = absurd (cc)

awake-Moves : (p : ThreadPool) → any_awake p.workers ≡ true → Moves p
awake-Moves p h = let (i, w, at, awake) = awake_at p.workers h in worker-Moves i w p at awake

caller-Moves : (p : ThreadPool) → 1 ≤ awake_count p.submitters → Moves p
unfolding step submit_step
caller-Moves p h =
    let (i, task, at) = caller_at p.submitters h in
    Moves.tests i (submit i task 0 p) (simp (at, step, submit_step) refl)

-- Over a queue that is full, or a caller that is awake.
crowded-Moves :
    (ts : List ℕ) (p : ThreadPool)
    → IsValid p
    → p.tasks ≡ ts
    → 1 ≤ length ts + awake_count p.submitters
    → Moves p
crowded-Moves [] p v at h = caller-Moves p (omega (arith, h))
crowded-Moves (t ∷ ts) p v at h = awake-Moves p (v.awake (ap no_tasks at))

submitter-Moves :
    (p : ThreadPool) → IsValid p → IsFair p → any_asleep_caller p.submitters ≡ true → Moves p
submitter-Moves p v f asleep = elim (Bool-cases p.shutting_down) [
  | inr running ↦ crowded-Moves p.tasks p v refl (omega (arith, f.space running asleep, f.positive))
  | inl stop ↦ elim (Bool-cases p.notified) [
    | inr later ↦ Moves.notifies stop later
    | inl told ↦ absurd (let quiet = (f.released told).1 in cc)
  ]
]

-- A pool that is not idle has a task, in its queue or in a worker.
busy-Moves : (ts : List ℕ) (p : ThreadPool) → IsValid p → p.tasks ≡ ts → is_idle p ≡ false → Moves p
unfolding is_idle
busy-Moves (t ∷ ts) p v at busy = awake-Moves p (v.awake (ap no_tasks at))
busy-Moves [] p v at busy =
    let active : ltb p.active_count 1 ≡ false =
      subst (λ ts. (no_tasks ts && ltb p.active_count 1) ≡ false) at busy in
    awake-Moves p
      (running_count-awake p.workers (omega (arith, ltb→le p.active_count 1 active, v.counted)))

idler-Moves : (p : ThreadPool) → IsValid p → IsFair p → any_asleep_caller p.idlers ≡ true → Moves p
idler-Moves p v f asleep = elim (Bool-cases (is_idle p)) [
  | inl idle ↦ absurd (let quiet = f.settled idle in cc)
  | inr busy ↦ busy-Moves p.tasks p v refl busy
]

waits-Moves : (p : ThreadPool) → IsValid p → IsFair p → Waits p → Moves p
unfolding is_shut_down
waits-Moves p v f (Waits.submitter asleep) = submitter-Moves p v f asleep
waits-Moves p v f (Waits.idler asleep) = idler-Moves p v f asleep
waits-Moves p v f (Waits.queued some_task) = awake-Moves p (v.awake some_task)
waits-Moves p v f (Waits.joins told joining) =
    let left : all_ended p.workers ≡ false =
      subst (λ b. (b && all_ended p.workers) ≡ false) told joining in
    awake-Moves p (any_awake-left p.workers left (v.woken told).1)

-- The pool has no deadlock, if each task ends: at any time after the pool was made, whatever its callers
-- and workers did, while a call of `submit` or of `wait_idle` sleeps, a task is in the queue, or a
-- shutdown that has notified is at its joins, some thread goes on by itself: a worker is awake, which
-- looks at the queue or ends its task, a call of `submit` is awake, or a shutdown has still to notify.
pub run_new-Moves :
    (n max_queue_size : ℕ) (p : ThreadPool) (actions : List Action)
    → make n max_queue_size ≡ some p
    → Waits (run actions p)
    → Moves (run actions p)
run_new-Moves n m p actions h waits =
    waits-Moves (run actions p) (run_new-IsValid n m p actions h)
      (run-IsFair actions p (make-IsFair n m p h)) waits
