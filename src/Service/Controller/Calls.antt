-- ===== src/Service/Controller/Calls.antt =====
-- The calls of the client keep the invariant, and the program does not end.
use core_desk.Base.{
  ℕ, Bool, Option, if◌then◌else◌, ◌≡◌, refl, sym, ap, ◌∙◌, subst, Bool-cases, Option-cases, inl,
  inr, ◌⊎◌, true, false, ◌∷◌, ◌++◌, map, none, some, arith,
}
use core_desk.Common.{success}
use core_desk.Index.SearchEngine.Key.{to_decimal}
use core_desk.Service.Controller.{
  ServiceState, is_scanning, Phase, Thread, Controller, Outcome, then_next, is_ended, join_thread,
  join_finished_scan, enter_scan, cancel_scan, state_of, begin_shutdown, end_shutdown,
}
use core_desk.Service.Controller.Steps.{World, with_started}
use core_desk.Service.Controller.Invariant.{thread_active, pending, IsValid}

-- A step leaves the invariant, and ends the program only under a condition.
abbrev pub Sound : Bool → Outcome World → Type 0
Sound raced (Outcome.next w) = IsValid w
Sound raced Outcome.waits = Unit
Sound raced Outcome.terminates = raced ≡ true

-- The rest of `start_scan` does not meet a thread that can still be joined.
abbrev pub Free : Controller → Type 0
Free c = (c.shutdown_requested ≡ true) ⊎ ((is_scanning c.state ≡ true) ⊎ (c.scan_thread ≡ none))

pub starting-IsValid : (o : Option ℕ) (w : World) → IsValid w → IsValid (record w { starting = o })
starting-IsValid o w v = record {
  active = v.active;
  idle = v.idle;
  settled = v.settled;
  claimed = v.claimed;
  current = v.current;
  indexed = v.indexed;
  numbers = v.numbers;
  counted = v.counted;
}

pub cancel_scan-IsValid :
    (w : World) → IsValid w → IsValid (record w { controller = (cancel_scan w.controller).0 })
unfolding cancel_scan
cancel_scan-IsValid w v = elim (Bool-cases (is_scanning w.controller.state)) [
  | inl busy ↦
      subst (λ c. IsValid (record w { controller = c })) (rw (busy, cancel_scan) refl) (flagged w v)
  | inr quiet ↦ subst (λ c. IsValid (record w { controller = c })) (rw (quiet, cancel_scan) refl) v
]
  where
    flagged :
        (w : World)
        → IsValid w
        → IsValid (record w { controller = record w.controller { cancelled = true } })
    flagged w v = record {
      active = v.active;
      idle = v.idle;
      settled = v.settled;
      claimed = v.claimed;
      current = v.current;
      indexed = v.indexed;
      numbers = v.numbers;
      counted = v.counted;
    }

pub begin_shutdown-IsValid :
    (w : World) → IsValid w → IsValid (record w { controller = begin_shutdown w.controller })
unfolding begin_shutdown
begin_shutdown-IsValid w v = elim (Bool-cases w.controller.shutdown_requested) [
  | inl again ↦
      subst (λ c. IsValid (record w { controller = c })) (rw (again, begin_shutdown) refl) v
  | inr first ↦
      let begun : Controller = record w.controller {
        shutdown_requested = true;
        cancelled = if is_scanning w.controller.state then true else w.controller.cancelled;
      } in
      let e : begin_shutdown w.controller ≡ begun = simp (first, begin_shutdown) refl in
      subst (λ c. IsValid (record w { controller = c })) (sym e)
        (record {
          active = v.active;
          idle = λ (running : true ≡ false) _. absurd (cc);
          settled = v.settled;
          claimed = v.claimed;
          current = v.current;
          indexed = v.indexed;
          numbers = v.numbers;
          counted = v.counted;
        })
]

-- An ended thread is joined.
joined-IsValid :
    (w : World) (t : Thread)
    → IsValid w
    → w.controller.scan_thread ≡ some t
    → is_ended t.phase ≡ true
    → (is_scanning w.controller.state ≡ false) ⊎ (w.controller.shutdown_requested ≡ true)
    → IsValid (record w { controller = record w.controller { scan_thread = none } })
joined-IsValid w t v at over calm = record {
  active = λ h. absurd (cc);
  idle = λ running busy. absurd (let no = quiet calm running busy in cc);
  settled = v.settled;
  claimed = λ h. absurd (cc);
  current = v.current;
  indexed = (v.indexed.0, tt);
  numbers = λ few. record {
    next_is = (v.numbers few).next_is;
    numbered = (v.numbers few).numbered;
    waits_for = tt;
  };
  counted = v.counted ∙ ap (λ x. pending x ++ map (λ c. c.0) w.completed) at ∙ ground (arith, over);
}
  where
    quiet :
        (is_scanning w.controller.state ≡ false) ⊎ (w.controller.shutdown_requested ≡ true)
        → w.controller.shutdown_requested ≡ false
        → is_scanning w.controller.state ≡ true
        → true ≡ false
    quiet (inl q) running busy = sym busy ∙ q
    quiet (inr q) running busy = sym q ∙ running

started-IsValid :
    (id : ℕ) (w : World)
    → IsValid w
    → w.controller.scan_thread ≡ none
    → IsValid (record w {
      controller = record w.controller {
        state = ServiceState.scanning;
        cancelled = false;
        active_scan_request_id = id;
        scan_thread = some (record { request_id = id; phase = Phase.scan_phase });
      };
      started = id ∷ w.started;
    })
started-IsValid id w v free = record {
  active = λ _. refl;
  idle = λ _ _. refl;
  settled = λ h. absurd (cc);
  claimed = λ h. absurd (cc);
  current = v.current;
  indexed = (v.indexed.0, tt);
  numbers = λ few. record {
    next_is = (v.numbers few).next_is;
    numbered = (v.numbers few).numbered;
    waits_for = tt;
  };
  counted = ap (◌∷◌ id) (v.counted ∙ ap (λ x. pending x ++ map (λ c. c.0) w.completed) free);
}

pub enter-Sound :
    (raced : Bool) (id : ℕ) (w : World)
    → IsValid w
    → (raced ≡ false → Free w.controller)
    → Sound raced (then_next (enter_scan id w.controller) (with_started id w))
unfolding enter_scan
enter-Sound raced id w v free = elim (Bool-cases w.controller.shutdown_requested) [
  | inl stop ↦ simp (stop, enter_scan) v
  | inr running ↦ elim (Bool-cases (is_scanning w.controller.state)) [
    | inl busy ↦ simp (running, busy, enter_scan) v
    | inr quiet ↦ elim (Option-cases w.controller.scan_thread) [
      | inr (t, at) ↦
          simp (running, quiet, at, enter_scan)
            (elim (Bool-cases raced) [
              | inl overtaken ↦ overtaken
              | inr apart ↦ absurd (let bad = met (free apart) running quiet at in cc)
            ])
      | inl unused ↦
          let entered = record w.controller {
            state = ServiceState.scanning;
            cancelled = false;
            active_scan_request_id = id;
            scan_thread = some (record { request_id = id; phase = Phase.scan_phase });
          } in
          let e : enter_scan id w.controller
              ≡ Outcome.next (entered, success (record { scan_id = to_decimal id })) =
            simp (running, quiet, unused, enter_scan) refl in
          subst (λ o. Sound raced (then_next o (with_started id w))) (sym e)
            (started-IsValid id w v unused)
    ]
  ]
]
  where
    met :
        {t : Thread}
        → Free w.controller
        → w.controller.shutdown_requested ≡ false
        → is_scanning w.controller.state ≡ false
        → w.controller.scan_thread ≡ some t
        → true ≡ false
    met (inl stop) running quiet at = cc
    met (inr (inl busy)) running quiet at = cc
    met (inr (inr unused)) running quiet at = absurd (cc)

-- After `join_finished_scan` the rest of `start_scan` is free to go on.
pub join-Sound :
    (id : ℕ) (w : World)
    → IsValid w
    → (o : Outcome Controller) → join_finished_scan w.controller ≡ o
    → Sound false
        (then_next o (λ c. Outcome.next (record w { controller = c; starting = some id })))
unfolding join_finished_scan join_thread
join-Sound id w v o h = elim (Option-cases w.controller.scan_thread) [
  | inl unused ↦
      let e : join_finished_scan w.controller ≡ Outcome.next w.controller =
        simp (unused, join_finished_scan) refl in
      after (sym e ∙ h) (starting-IsValid (some id) w v)
  | inr (t, at) ↦ elim (Bool-cases (is_scanning w.controller.state)) [
    | inl busy ↦
        let e : join_finished_scan w.controller ≡ Outcome.next w.controller =
          simp (at, busy, join_finished_scan) refl in
        after (sym e ∙ h) (starting-IsValid (some id) w v)
    | inr quiet ↦ elim (Bool-cases (is_ended t.phase)) [
      | inl over ↦
          let e : join_finished_scan w.controller
              ≡ Outcome.next (record w.controller { scan_thread = none }) =
            simp (at, quiet, over, join_finished_scan, join_thread) refl in
          after (sym e ∙ h) (
            starting-IsValid (some id)
              (record w { controller = record w.controller { scan_thread = none } })
              (joined-IsValid w t v at over (inl quiet)))
      | inr runs ↦
          let e : join_finished_scan w.controller ≡ Outcome.waits =
            simp (at, quiet, runs, join_finished_scan, join_thread) refl in
          after (sym e ∙ h) tt
    ]
  ]
]
  where
    after :
        {j : Outcome Controller}
        → j ≡ o
        → Sound false
            (then_next j (λ c. Outcome.next (record w { controller = c; starting = some id })))
        → Sound false
            (then_next o (λ c. Outcome.next (record w { controller = c; starting = some id })))
    after e sound =
        subst
          (λ j.
            Sound false
              (then_next j (λ c. Outcome.next (record w { controller = c; starting = some id }))))
          e sound

next-injective {ℓ} : {A : Type ℓ} {a b : A} → Outcome.next a ≡ Outcome.next b → a ≡ b
next-injective h = cc

pub join-Free : (c c' : Controller) → join_finished_scan c ≡ Outcome.next c' → Free c'
unfolding join_finished_scan join_thread
join-Free c c' h = elim (Option-cases c.scan_thread) [
  | inl unused ↦
      let e : join_finished_scan c ≡ Outcome.next c = simp (unused, join_finished_scan) refl in
      subst Free (next-injective (sym e ∙ h)) (inr (inr unused))
  | inr (t, at) ↦ elim (Bool-cases (is_scanning c.state)) [
    | inl busy ↦
        let e : join_finished_scan c ≡ Outcome.next c = simp (at, busy, join_finished_scan) refl in
        subst Free (next-injective (sym e ∙ h)) (inr (inl busy))
    | inr quiet ↦ elim (Bool-cases (is_ended t.phase)) [
      | inl over ↦
          let e : join_finished_scan c ≡ Outcome.next (record c { scan_thread = none }) =
            simp (at, quiet, over, join_finished_scan, join_thread) refl in
          subst Free (next-injective (sym e ∙ h)) (inr (inr refl))
      | inr runs ↦
          let e : join_finished_scan c ≡ Outcome.waits =
            simp (at, quiet, runs, join_finished_scan, join_thread) refl in
          absurd (let bad : Outcome.waits ≡ Outcome.next c' = sym e ∙ h in cc)
    ]
  ]
]

-- The end of `shutdown`.
abbrev at_rest : Controller → Controller
at_rest c = record c { state = state_of c.current_snapshot }

at_rest-IsValid :
    (w : World)
    → IsValid w
    → w.controller.shutdown_requested ≡ true
    → w.controller.scan_thread ≡ none
    → IsValid (record w { controller = at_rest w.controller })
at_rest-IsValid w v stop unused = record {
  active = λ h. absurd (let no : false ≡ true = sym (ap thread_active unused) ∙ h in cc);
  idle = λ running _. absurd (cc);
  settled = λ _. refl;
  claimed = v.claimed;
  current = v.current;
  indexed = v.indexed;
  numbers = v.numbers;
  counted = v.counted;
}

pub end-Sound :
    (w : World)
    → IsValid w
    → w.controller.shutdown_requested ≡ true
    → Sound false
        (then_next (end_shutdown w.controller) (λ c. Outcome.next (record w { controller = c })))
unfolding end_shutdown join_thread
end-Sound w v stop = elim (Option-cases w.controller.scan_thread) [
  | inl unused ↦
      let e : end_shutdown w.controller ≡ Outcome.next (at_rest w.controller) =
        simp (unused, end_shutdown) refl in
      after e (at_rest-IsValid w v stop unused)
  | inr (t, at) ↦ elim (Bool-cases (is_ended t.phase)) [
    | inl over ↦
        let joined = record w { controller = record w.controller { scan_thread = none } } in
        let e : end_shutdown w.controller ≡ Outcome.next (at_rest joined.controller) =
          simp (at, over, end_shutdown, join_thread) refl in
        after e (at_rest-IsValid joined (joined-IsValid w t v at over (inr stop)) stop refl)
    | inr runs ↦
        let e : end_shutdown w.controller ≡ Outcome.waits =
          simp (at, runs, end_shutdown, join_thread) refl in
        after e tt
  ]
]
  where
    after :
        {j : Outcome Controller}
        → end_shutdown w.controller ≡ j
        → Sound false (then_next j (λ c. Outcome.next (record w { controller = c })))
        → Sound false (
            then_next (end_shutdown w.controller) (λ c. Outcome.next (record w { controller = c })))
    after e sound =
        subst (λ j. Sound false (then_next j (λ c. Outcome.next (record w { controller = c }))))
          (sym e) sound
