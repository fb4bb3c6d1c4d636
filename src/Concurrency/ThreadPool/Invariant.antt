-- ===== src/Concurrency/ThreadPool/Invariant.antt =====
-- What holds of a pool between the steps of its threads, and each operation.
use core_desk.Base.{
  ℕ, ◌+◌, ltb, ltb→lt, ◌≡◌, ◌≤◌, refl, sym, ap, ◌∙◌, Bool, true, false, Bool-cases, inl, inr,
  if◌then◌else◌, List, [], ◌∷◌, ◌++◌, some, length, get_elem?, arith, append_assoc, length-append,
}
use core_desk.Concurrency.ThreadPool.{
  Worker, Caller, set_caller, ThreadPool, no_tasks, any_asleep, set_at, notify_one, look, finish,
  start_shutdown, notify_shutdown,
}
use core_desk.Concurrency.ThreadPool.Workers.{
  running_count, any_awake, is_ended, any_ended, running_count-set_at, any_awake-set_at,
  any_ended-set_at, any_asleep-set_at, running_count-notify_one, any_ended-notify_one,
  any_awake-notify_one, running_count-notify_all, any_awake-notify_all, any_ended-notify_all,
  any_asleep-notify_all, length-set_at, length-notify_one, length-notify_all,
}

-- What holds of a pool between the steps of its threads.
pub record IsValid (p : ThreadPool) : Type 0 where
  pub staffed : 1 ≤ length p.workers
  pub bounded : length p.tasks ≤ p.max_queue_size
  pub counted : p.active_count ≡ running_count p.workers
  -- The tasks are taken in the order in which they were accepted, each once.
  pub in_order : p.taken ++ p.tasks ≡ p.accepted
  pub done : length p.finished + p.active_count ≡ length p.taken
  -- No wake-up is lost.
  pub awake : no_tasks p.tasks ≡ false → any_awake p.workers ≡ true
  pub over : any_ended p.workers ≡ true → (p.shutting_down ≡ true) × (no_tasks p.tasks ≡ true)
  pub woken : p.notified ≡ true → (p.shutting_down ≡ true) × (any_asleep p.workers ≡ false)

-- A test inside a statement, with what it says in each branch.
pub either {ℓ} :
    {A : Type ℓ} (P : A → Type 0) (b : Bool) (x y : A)
    → (b ≡ true → P x)
    → (b ≡ false → P y)
    → P (if b then x else y)
either P true x y a b = a refl
either P false x y a b = b refl

ended_before :
    (i : ℕ) (w : Worker) (ws : List Worker)
    → is_ended w ≡ false
    → any_ended (set_at i w ws) ≡ true
    → any_ended ws ≡ true
ended_before i w ws e h = elim (Bool-cases (any_ended ws)) [
  | inl before ↦ before
  | inr not_before ↦ absurd (let bad = any_ended-set_at i w ws e not_before in cc)
]

no_tasks-append : (ts : List ℕ) (t : ℕ) → no_tasks (ts ++ t ∷ []) ≡ false
no_tasks-append [] t = refl
no_tasks-append (x ∷ ts) t = refl

-- Other calls of `submit` and `wait_idle` make no difference.
pub callers-IsValid :
    (ss is : List Caller) (p : ThreadPool)
    → IsValid p
    → IsValid (record p { submitters = ss; idlers = is })
callers-IsValid ss is p v = record {
  staffed = v.staffed;
  bounded = v.bounded;
  counted = v.counted;
  in_order = v.in_order;
  done = v.done;
  awake = v.awake;
  over = v.over;
  woken = v.woken;
}

pub accept-IsValid :
    (i task n : ℕ) (p : ThreadPool)
    → IsValid p
    → p.shutting_down ≡ false
    → ltb (length p.tasks) p.max_queue_size ≡ true
    → IsValid (record p {
      tasks = p.tasks ++ task ∷ [];
      workers = notify_one p.workers n;
      accepted = p.accepted ++ task ∷ [];
      submitters = set_caller i (Caller.returned true) p.submitters;
    })
accept-IsValid i task n p v open_pool room =
    let none_ended : any_ended p.workers ≡ false = elim (Bool-cases (any_ended p.workers)) [
      | inl e ↦ absurd (let shut = (v.over e).0 in cc)
      | inr e ↦ e
    ] in
    record {
      staffed = omega (arith, v.staffed, length-notify_one p.workers n);
      bounded =
          omega (
            arith,
            ltb→lt (length p.tasks) p.max_queue_size room,
            length-append p.tasks (task ∷ []),
          );
      counted = v.counted ∙ sym (running_count-notify_one p.workers n);
      in_order =
          sym (append_assoc p.taken p.tasks (task ∷ [])) ∙ ap (λ x. x ++ task ∷ []) v.in_order;
      done = v.done;
      awake = λ some_task. any_awake-notify_one p.workers n v.staffed none_ended;
      over = λ e.
          absurd (
            let bad : any_ended p.workers ≡ true = sym (any_ended-notify_one p.workers n) ∙ e in
            cc);
      woken = λ s. absurd (let shut = (v.woken s).0 in cc);
    }

-- A worker takes the first task.
take-IsValid :
    (i m task : ℕ) (tasks : List ℕ) (p : ThreadPool)
    → IsValid p
    → p.tasks ≡ task ∷ tasks
    → get_elem? p.workers i ≡ some Worker.checking
    → IsValid (look i m p (task ∷ tasks))
unfolding look
take-IsValid i m task tasks p v at here =
    let w : Worker = Worker.running task in
    let more : running_count (set_at i w p.workers) + 0 ≡ running_count p.workers + 1 =
      running_count-set_at i Worker.checking w p.workers here in
    let none_ended : any_ended p.workers ≡ false = elim (Bool-cases (any_ended p.workers)) [
      | inl e ↦ absurd (let empty : true ≡ false = sym (v.over e).1 ∙ ap no_tasks at in cc)
      | inr e ↦ e
    ] in
    record {
      staffed = omega (arith, v.staffed, length-set_at i w p.workers);
      bounded = omega (arith, v.bounded, ap length at);
      counted = omega (arith, v.counted, more);
      in_order =
          append_assoc p.taken (task ∷ []) tasks ∙ ap (λ x. p.taken ++ x) (sym at) ∙ v.in_order;
      done = omega (arith, v.done, length-append p.taken (task ∷ []));
      awake = λ some_task. any_awake-set_at i Worker.checking w p.workers here refl;
      over = λ e. absurd (let bad = ended_before i w p.workers refl e in cc);
      woken = λ s. ((v.woken s).0, any_asleep-set_at i w p.workers refl (v.woken s).1);
    }

-- A worker that finds no task ends or goes to sleep.
rest-IsValid :
    (i m : ℕ) (p : ThreadPool)
    → IsValid p
    → p.tasks ≡ []
    → get_elem? p.workers i ≡ some Worker.checking
    → IsValid (look i m p [])
unfolding look
rest-IsValid i m p v at here =
    either IsValid p.shutting_down _ _
      (λ shut. record {
        staffed = omega (arith, v.staffed, length-set_at i Worker.ended p.workers);
        bounded = v.bounded;
        counted =
            omega (
              arith,
              v.counted,
              running_count-set_at i Worker.checking Worker.ended p.workers here,
            );
        in_order = v.in_order;
        done = v.done;
        awake = λ some_task. absurd (let empty = ap no_tasks at in cc);
        over = λ e. (shut, ap no_tasks at);
        woken = λ s. ((v.woken s).0, any_asleep-set_at i Worker.ended p.workers refl (v.woken s).1);
      })
      (λ open_pool. record {
        staffed = omega (arith, v.staffed, length-set_at i Worker.asleep p.workers);
        bounded = v.bounded;
        counted =
            omega (
              arith,
              v.counted,
              running_count-set_at i Worker.checking Worker.asleep p.workers here,
            );
        in_order = v.in_order;
        done = v.done;
        awake = λ some_task. absurd (let empty = ap no_tasks at in cc);
        over = λ e. v.over (ended_before i Worker.asleep p.workers refl e);
        woken = λ s. absurd (let shut = (v.woken s).0 in cc);
      })

pub look-IsValid :
    (i m : ℕ) (p : ThreadPool) (ts : List ℕ)
    → IsValid p
    → p.tasks ≡ ts
    → get_elem? p.workers i ≡ some Worker.checking
    → IsValid (look i m p ts)
look-IsValid i m p [] v at here = rest-IsValid i m p v at here
look-IsValid i m p (task ∷ tasks) v at here = take-IsValid i m task tasks p v at here

pub wake-IsValid :
    (i : ℕ) (p : ThreadPool)
    → IsValid p
    → get_elem? p.workers i ≡ some Worker.asleep
    → IsValid (record p { workers = set_at i Worker.checking p.workers })
wake-IsValid i p v here = record {
  staffed = omega (arith, v.staffed, length-set_at i Worker.checking p.workers);
  bounded = v.bounded;
  counted =
      omega (arith, v.counted, running_count-set_at i Worker.asleep Worker.checking p.workers here);
  in_order = v.in_order;
  done = v.done;
  awake = λ some_task. any_awake-set_at i Worker.asleep Worker.checking p.workers here refl;
  over = λ e. v.over (ended_before i Worker.checking p.workers refl e);
  woken = λ s. ((v.woken s).0, any_asleep-set_at i Worker.checking p.workers refl (v.woken s).1);
}

pub finish-IsValid :
    (i task : ℕ) (threw : Bool) (p : ThreadPool)
    → IsValid p
    → get_elem? p.workers i ≡ some (Worker.running task)
    → IsValid (finish i task threw p)
unfolding finish
finish-IsValid i task threw p v here =
    let w : Worker = Worker.running task in
    let less : running_count (set_at i Worker.checking p.workers) + 1
        ≡ running_count p.workers + 0 =
      running_count-set_at i w Worker.checking p.workers here in
    record {
      staffed = omega (arith, v.staffed, length-set_at i Worker.checking p.workers);
      bounded = v.bounded;
      counted = omega (arith, v.counted, less);
      in_order = v.in_order;
      done = omega (arith, v.done, v.counted, less, length-append p.finished (task ∷ []));
      awake = λ some_task. any_awake-set_at i w Worker.checking p.workers here refl;
      over = λ e. v.over (ended_before i Worker.checking p.workers refl e);
      woken =
          λ s. ((v.woken s).0, any_asleep-set_at i Worker.checking p.workers refl (v.woken s).1);
    }

pub start_shutdown-IsValid : (p : ThreadPool) → IsValid p → IsValid (start_shutdown p)
unfolding start_shutdown
start_shutdown-IsValid p v =
    either IsValid p.shutting_down _ _ (λ shut. v)
      (λ open_pool. record {
        staffed = v.staffed;
        bounded = v.bounded;
        counted = v.counted;
        in_order = v.in_order;
        done = v.done;
        awake = v.awake;
        over = λ e. (refl, (v.over e).1);
        woken = λ s. (refl, (v.woken s).1);
      })

pub notify_shutdown-IsValid : (p : ThreadPool) → IsValid p → IsValid (notify_shutdown p)
unfolding notify_shutdown
notify_shutdown-IsValid p v =
    either IsValid p.shutting_down _ _
      (λ shut. record {
        staffed = omega (arith, v.staffed, length-notify_all p.workers);
        bounded = v.bounded;
        counted = v.counted ∙ sym (running_count-notify_all p.workers);
        in_order = v.in_order;
        done = v.done;
        awake = λ some_task. any_awake-notify_all p.workers (v.awake some_task);
        over = λ e. v.over (sym (any_ended-notify_all p.workers) ∙ e);
        woken = λ s. (shut, any_asleep-notify_all p.workers);
      })
      (λ open_pool. v)
