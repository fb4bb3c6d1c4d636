-- ===== src/Concurrency/ThreadPool/Sleepers.antt =====
-- The calls of `submit` and `wait_idle` that sleep, in src/concurrency/ThreadPool.cpp, and what each of
-- them does.
use core_desk.Base.{
  ℕ, ◌+◌, ltb, ltb→le, ◌≡◌, ◌≤◌, refl, sym, subst, true, false, Bool-cases, inl, inr, &&-left,
  if◌then◌else◌, List, [], ◌∷◌, ◌++◌, Option, none, some, length, get_elem?, arith, length-append,
}
use core_desk.Concurrency.ThreadPool.{
  Worker, Caller, ThreadPool, no_tasks, set_caller, any_asleep_caller, is_asleep_caller,
  call_submit, submit, wait_idle, is_idle,
}
use core_desk.Concurrency.ThreadPool.Callers.{
  awake_count, awake_count-set_caller, any_asleep-set_caller, any_asleep-append, awake_count-append,
}
use core_desk.Concurrency.ThreadPool.Invariant.{either}

pub record IsFair (p : ThreadPool) : Type 0 where
  pub positive : 1 ≤ p.max_queue_size
  -- While a call of `submit` sleeps, no more places are free than calls are awake.
  pub space :
      p.shutting_down ≡ false
      → any_asleep_caller p.submitters ≡ true
      → p.max_queue_size ≤ length p.tasks + awake_count p.submitters
  pub released :
      p.notified ≡ true → (p.shutting_down ≡ true) × (any_asleep_caller p.submitters ≡ false)
  -- Over an idle pool no call of `wait_idle` sleeps.
  pub settled : is_idle p ≡ true → any_asleep_caller p.idlers ≡ false

-- Who sleeps after a change that puts nobody to sleep slept before.
pub asleep_before :
    (before later : List Caller)
    → (any_asleep_caller before ≡ false → any_asleep_caller later ≡ false)
    → any_asleep_caller later ≡ true
    → any_asleep_caller before ≡ true
asleep_before before later keeps h = elim (Bool-cases (any_asleep_caller before)) [
  | inl asleep ↦ asleep
  | inr quiet ↦ absurd (let bad = keeps quiet in cc)
]

-- A submitter returns while the pool shuts down.
refused-IsFair :
    (i task : ℕ) (p : ThreadPool)
    → IsFair p
    → p.shutting_down ≡ true
    → IsFair (record p { submitters = set_caller i (Caller.returned false) p.submitters })
unfolding is_idle
refused-IsFair i task p v shut = record {
  positive = v.positive;
  space = λ open_pool asleep. absurd (cc);
  released = λ n. (
    (v.released n).0,
    any_asleep-set_caller i (Caller.returned false) p.submitters refl (v.released n).1,
  );
  settled = v.settled;
}

no_tasks-append : (ts : List ℕ) (t : ℕ) → no_tasks (ts ++ t ∷ []) ≡ false
no_tasks-append [] t = refl
no_tasks-append (x ∷ ts) t = refl

accept-IsFair :
    (i task : ℕ) (p : ThreadPool) (workers : List Worker) (accepted : List ℕ)
    → IsFair p
    → p.shutting_down ≡ false
    → get_elem? p.submitters i ≡ some (Caller.checking task)
    → IsFair (record p {
      tasks = p.tasks ++ task ∷ [];
      workers = workers;
      accepted = accepted;
      submitters = set_caller i (Caller.returned true) p.submitters;
    })
unfolding is_idle
accept-IsFair i task p workers accepted v open_pool at = record {
  positive = v.positive;
  space = λ _ asleep.
      let before : any_asleep_caller p.submitters ≡ true =
        asleep_before p.submitters (set_caller i (Caller.returned true) p.submitters)
          (any_asleep-set_caller i (Caller.returned true) p.submitters refl) asleep in
      let less : awake_count (set_caller i (Caller.returned true) p.submitters) + 1
          ≡ awake_count p.submitters + 0 =
        awake_count-set_caller i (Caller.checking task) (Caller.returned true) p.submitters at in
      omega (arith, v.space open_pool before, less, length-append p.tasks (task ∷ []));
  released = λ n. absurd (let shut = (v.released n).0 in cc);
  settled = λ idle. absurd (
      let empty = &&-left (no_tasks (p.tasks ++ task ∷ [])) (ltb p.active_count 1) idle in
      let some_task = no_tasks-append p.tasks task in cc);
}

-- A submitter goes to sleep at a full queue.
sleep-IsFair :
    (i task : ℕ) (p : ThreadPool)
    → IsFair p
    → p.shutting_down ≡ false
    → ltb (length p.tasks) p.max_queue_size ≡ false
    → IsFair (record p { submitters = set_caller i (Caller.asleep task) p.submitters })
unfolding is_idle
sleep-IsFair i task p v open_pool full = record {
  positive = v.positive;
  space = λ _ asleep. omega (arith, ltb→le (length p.tasks) p.max_queue_size full);
  released = λ n. absurd (let shut = (v.released n).0 in cc);
  settled = v.settled;
}

pub submit-IsFair :
    (i task n : ℕ) (p : ThreadPool)
    → IsFair p
    → get_elem? p.submitters i ≡ some (Caller.checking task)
    → IsFair (submit i task n p)
unfolding submit
submit-IsFair i task n p v at =
    either IsFair p.shutting_down _ _ (refused-IsFair i task p v) (λ open_pool.
      either IsFair (ltb (length p.tasks) p.max_queue_size) _ _
        (λ room. accept-IsFair i task p _ _ v open_pool at) (sleep-IsFair i task p v open_pool))

pub wake_submitter-IsFair :
    (i task : ℕ) (p : ThreadPool)
    → IsFair p
    → get_elem? p.submitters i ≡ some (Caller.asleep task)
    → IsFair (record p { submitters = set_caller i (Caller.checking task) p.submitters })
unfolding is_idle
wake_submitter-IsFair i task p v at = record {
  positive = v.positive;
  space = λ open_pool asleep.
      let before : any_asleep_caller p.submitters ≡ true =
        asleep_before p.submitters (set_caller i (Caller.checking task) p.submitters)
          (any_asleep-set_caller i (Caller.checking task) p.submitters refl) asleep in
      let more : awake_count (set_caller i (Caller.checking task) p.submitters) + 0
          ≡ awake_count p.submitters + 1 =
        awake_count-set_caller i (Caller.asleep task) (Caller.checking task) p.submitters at in
      omega (arith, v.space open_pool before, more);
  released = λ n. (
    (v.released n).0,
    any_asleep-set_caller i (Caller.checking task) p.submitters refl (v.released n).1,
  );
  settled = v.settled;
}

called-IsFair :
    (c : Caller) (p : ThreadPool)
    → IsFair p
    → is_asleep_caller c ≡ false
    → IsFair (record p { submitters = p.submitters ++ c ∷ [] })
unfolding is_idle
called-IsFair c p v quiet = record {
  positive = v.positive;
  space = λ open_pool asleep.
      let before : any_asleep_caller p.submitters ≡ true =
        asleep_before p.submitters (p.submitters ++ c ∷ []) (any_asleep-append p.submitters c quiet)
          asleep in
      omega (arith, v.space open_pool before, awake_count-append p.submitters c);
  released = λ n. ((v.released n).0, any_asleep-append p.submitters c quiet (v.released n).1);
  settled = v.settled;
}

pub call_submit-IsFair : (task : Option ℕ) (p : ThreadPool) → IsFair p → IsFair (call_submit task p)
unfolding call_submit
call_submit-IsFair none p v = called-IsFair (Caller.returned false) p v refl
call_submit-IsFair (some task) p v = called-IsFair (Caller.checking task) p v refl

pub idlers-IsFair :
    (is : List Caller) (p : ThreadPool)
    → IsFair p
    → (is_idle p ≡ true → any_asleep_caller is ≡ false)
    → IsFair (record p { idlers = is })
unfolding is_idle
idlers-IsFair is p v settled = record {
  positive = v.positive;
  space = v.space;
  released = v.released;
  settled = settled;
}

pub wait_idle-IsFair : (i : ℕ) (p : ThreadPool) → IsFair p → IsFair (wait_idle i p)
unfolding wait_idle
wait_idle-IsFair i p v = idlers-IsFair _ p v (λ idle.
    subst
      (λ b.
        any_asleep_caller
          (set_caller i (if b then Caller.returned true else Caller.asleep 0) p.idlers)
        ≡ false)
      (sym idle) (any_asleep-set_caller i (Caller.returned true) p.idlers refl (v.settled idle)))
