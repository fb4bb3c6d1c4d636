-- ===== src/Concurrency/ThreadPool/Fairness.antt =====
-- The calls that sleep, over any steps of a pool.
use core_desk.Base.{
  ℕ, zero, suc, ◌+◌, ltb, ltb→lt, ◌≡◌, refl, sym, ap, subst, Bool, true, false, Bool-cases, inl,
  inr, &&-right, if◌then◌else◌, List, [], ◌∷◌, Option, some, length, get_elem?, arith,
}
use mathlib.Core.Option.{some-injective}
use core_desk.Concurrency.ThreadPool.{
  Worker, Caller, ThreadPool, no_tasks, make, notify_caller, notify_callers, any_asleep_caller,
  call_wait_idle, is_idle, look, finish, start_shutdown, notify_shutdown, is_shut_down,
  finish_shutdown, Action, worker_step, submit_step, idle_step, step, after, run,
}
use core_desk.Concurrency.ThreadPool.Callers.{
  any_asleep-set_caller, any_asleep-append, any_asleep-notify_caller, awake_count-notify_caller,
  any_asleep-notify_callers,
}
use core_desk.Concurrency.ThreadPool.Invariant.{either}
use core_desk.Concurrency.ThreadPool.Sleepers.{
  IsFair, asleep_before, submit-IsFair, wake_submitter-IsFair, call_submit-IsFair, idlers-IsFair,
  wait_idle-IsFair,
}

submit_step-IsFair :
    (a : Action) (i : ℕ) (o : Option Caller) (p : ThreadPool)
    → IsFair p
    → get_elem? p.submitters i ≡ o
    → IsFair (after (submit_step a i o p) p)
unfolding submit_step
submit_step-IsFair (Action.test_submit_action j n) i (some (Caller.checking task)) p v at =
    submit-IsFair i task n p v at
submit_step-IsFair (Action.wake_submitter_action j) i (some (Caller.asleep task)) p v at =
    wake_submitter-IsFair i task p v at
submit_step-IsFair _ i _ p v at = v

idle_step-IsFair :
    (a : Action) (i : ℕ) (o : Option Caller) (p : ThreadPool)
    → IsFair p
    → IsFair (after (idle_step a i o p) p)
unfolding idle_step
idle_step-IsFair (Action.test_idle_action j) i (some (Caller.checking task)) p v =
    wait_idle-IsFair i p v
idle_step-IsFair (Action.wake_idler_action j) i (some (Caller.asleep task)) p v =
    idlers-IsFair _ p v
      (λ idle. any_asleep-set_caller i (Caller.checking task) p.idlers refl (v.settled idle))
idle_step-IsFair _ i _ p v = v

-- A change of the workers and the counts of what happened.
workers-IsFair : (ws : List Worker) (p : ThreadPool) → IsFair p → IsFair (record p { workers = ws })
unfolding is_idle
workers-IsFair ws p v = record {
  positive = v.positive;
  space = v.space;
  released = v.released;
  settled = v.settled;
}

look-IsFair :
    (i m : ℕ) (p : ThreadPool) (ts : List ℕ) → IsFair p → p.tasks ≡ ts → IsFair (look i m p ts)
unfolding look is_idle
look-IsFair i m p [] v at =
    either IsFair p.shutting_down _ _ (λ shut. workers-IsFair _ p v)
      (λ open_pool. workers-IsFair _ p v)
look-IsFair i m p (task ∷ tasks) v at = record {
  positive = v.positive;
  space = λ open_pool asleep.
      let before : any_asleep_caller p.submitters ≡ true =
        asleep_before p.submitters (notify_caller p.submitters m)
          (any_asleep-notify_caller p.submitters m) asleep in
      omega (
        arith,
        v.space open_pool before,
        awake_count-notify_caller p.submitters m before,
        ap length at,
      );
  released = λ n. ((v.released n).0, any_asleep-notify_caller p.submitters m (v.released n).1);
  settled = λ idle.
      let busy = &&-right (no_tasks tasks) (ltb (p.active_count + 1) 1) idle in
      absurd (omega (arith, ltb→lt (p.active_count + 1) 1 busy));
}

finish-IsFair :
    (i task : ℕ) (threw : Bool) (p : ThreadPool) → IsFair p → IsFair (finish i task threw p)
unfolding finish is_idle
finish-IsFair i task threw p v = record {
  positive = v.positive;
  space = v.space;
  released = v.released;
  settled = λ idle.
      subst (λ b. any_asleep_caller (if b then notify_callers p.idlers else p.idlers) ≡ false)
        (sym idle) (any_asleep-notify_callers p.idlers);
}

worker_step-IsFair :
    (a : Action) (i : ℕ) (o : Option Worker) (p : ThreadPool)
    → IsFair p
    → IsFair (after (worker_step a i o p) p)
unfolding worker_step
worker_step-IsFair (Action.look_action j m) i (some Worker.checking) p v =
    look-IsFair i m p p.tasks v refl
worker_step-IsFair (Action.wake_action j) i (some Worker.asleep) p v = workers-IsFair _ p v
worker_step-IsFair (Action.finish_action j threw) i (some (Worker.running task)) p v =
    finish-IsFair i task threw p v
worker_step-IsFair _ i _ p v = v

start_shutdown-IsFair : (p : ThreadPool) → IsFair p → IsFair (start_shutdown p)
unfolding start_shutdown is_idle
start_shutdown-IsFair p v =
    either IsFair p.shutting_down _ _ (λ shut. v)
      (λ open_pool. record {
        positive = v.positive;
        space = λ running asleep. absurd (cc);
        released = λ n. (refl, (v.released n).1);
        settled = v.settled;
      })

notify_shutdown-IsFair : (p : ThreadPool) → IsFair p → IsFair (notify_shutdown p)
unfolding notify_shutdown is_idle
notify_shutdown-IsFair p v =
    either IsFair p.shutting_down _ _
      (λ shut. record {
        positive = v.positive;
        space = λ running asleep. absurd (cc);
        released = λ n. (shut, any_asleep-notify_callers p.submitters);
        settled = v.settled;
      })
      (λ open_pool. v)

finish_shutdown-IsFair : (p : ThreadPool) → IsFair p → IsFair (finish_shutdown p)
unfolding finish_shutdown
finish_shutdown-IsFair p v =
    either IsFair (is_shut_down p) _ _
      (λ down. idlers-IsFair _ p v (λ idle. any_asleep-notify_callers p.idlers)) (λ up. v)

step-IsFair : (a : Action) (p : ThreadPool) → IsFair p → IsFair (after (step a p) p)
unfolding step call_wait_idle
step-IsFair (Action.submit_action task) p v = call_submit-IsFair task p v
step-IsFair (Action.test_submit_action i n) p v =
    submit_step-IsFair (Action.test_submit_action i n) i (get_elem? p.submitters i) p v refl
step-IsFair (Action.wake_submitter_action i) p v =
    submit_step-IsFair (Action.wake_submitter_action i) i (get_elem? p.submitters i) p v refl
step-IsFair Action.wait_idle_action p v =
    idlers-IsFair _ p v
      (λ idle. any_asleep-append p.idlers (Caller.checking 0) refl (v.settled idle))
step-IsFair (Action.test_idle_action i) p v =
    idle_step-IsFair (Action.test_idle_action i) i (get_elem? p.idlers i) p v
step-IsFair (Action.wake_idler_action i) p v =
    idle_step-IsFair (Action.wake_idler_action i) i (get_elem? p.idlers i) p v
step-IsFair (Action.look_action i m) p v =
    worker_step-IsFair (Action.look_action i m) i (get_elem? p.workers i) p v
step-IsFair (Action.wake_action i) p v =
    worker_step-IsFair (Action.wake_action i) i (get_elem? p.workers i) p v
step-IsFair (Action.finish_action i threw) p v =
    worker_step-IsFair (Action.finish_action i threw) i (get_elem? p.workers i) p v
step-IsFair Action.shutdown_action p v = start_shutdown-IsFair p v
step-IsFair Action.notify_action p v = notify_shutdown-IsFair p v
step-IsFair Action.finish_shutdown_action p v = finish_shutdown-IsFair p v

pub run-IsFair : (actions : List Action) (p : ThreadPool) → IsFair p → IsFair (run actions p)
run-IsFair [] p v = v
run-IsFair (a ∷ actions) p v = run-IsFair actions (after (step a p) p) (step-IsFair a p v)

pub make-IsFair :
    (n max_queue_size : ℕ) (p : ThreadPool) → make n max_queue_size ≡ some p → IsFair p
unfolding make
make-IsFair zero m p h = absurd (cc)
make-IsFair (suc n) m p h = subst IsFair (some-injective _ p h) (record {
  positive = elim (Bool-cases (ltb 1 m)) [
    | inl more ↦ simp more (omega (arith, ltb→lt 1 m more))
    | inr less ↦ simp less (omega arith)
  ];
  space = λ running asleep. absurd (cc);
  released = λ n. absurd (cc);
  settled = λ idle. refl;
})
