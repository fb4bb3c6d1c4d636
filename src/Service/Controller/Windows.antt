-- ===== src/Service/Controller/Windows.antt =====
-- The window of a `start_scan` of src/service/ServiceController.cpp between its two locks.
use core_desk.Base.{
  ℕ, ◌≡◌, refl, sym, ap, ◌∙◌, subst, Bool, Bool-cases, Option, Option-cases, inl, inr, true, false,
  List, ◌∷◌, none, some,
}
use core_desk.Common.{success, failure, Result}
use core_desk.Service.Controller.{
  Phase, is_scanning, Controller, Thread, Outcome, then_next, join_thread, join_finished_scan,
  enter_scan, ScanStarted, state_of, is_ended, cancel_scan, begin_shutdown, end_shutdown,
}
use core_desk.Service.Controller.Steps.{
  World, Action, join_step, enter_step, with_started, thread_step, on_thread, step, overtakes,
  install,
}
use core_desk.Service.Controller.Calls.{Free, join-Free}

-- Unless a scan set its state since the join, the rest of `start_scan` is free to go on.
abbrev pub Ready : Bool → World → Type 0
Ready seen w = (id : ℕ) → w.starting ≡ some id → seen ≡ false → Free w.controller

-- Whether a scan set its state since the last join, after an action.
abbrev pub after : Bool → Action → Bool
after seen (Action.start_action id) = false
after seen Action.finish_action = true
after seen a = seen

pub overtakes-after :
    (seen : Bool) (a : Action) (later : List Action)
    → overtakes (after seen a) later ≡ true
    → overtakes seen (a ∷ later) ≡ true
overtakes-after true Action.enter_action later h = refl
overtakes-after false Action.enter_action later h = h
overtakes-after seen (Action.start_action id) later h = h
overtakes-after seen Action.finish_action later h = h
overtakes-after seen _ later h = h

next-injective {ℓ} : {A : Type ℓ} {a b : A} → Outcome.next a ≡ Outcome.next b → a ≡ b
next-injective h = cc

-- What the window of a `start_scan` depends on is the same.
record Kept (w w' : World) : Type 0 where
  starting : w'.starting ≡ w.starting
  shutdown : w'.controller.shutdown_requested ≡ w.controller.shutdown_requested
  state : w'.controller.state ≡ w.controller.state

Kept-refl : (w : World) → Kept w w
Kept-refl w = record { starting = refl; shutdown = refl; state = refl }

thread_step-Kept :
    (phase : Phase) (a : Action) (t : Thread) (w w' : World)
    → thread_step phase a t w ≡ Outcome.next w'
    → after false a ≡ false
    → Kept w w'
unfolding thread_step install
thread_step-Kept Phase.scan_phase (Action.scan_action r) t w w' h calm =
    subst (Kept w) (next-injective h) (record { starting = refl; shutdown = refl; state = refl })
thread_step-Kept Phase.scan_phase (Action.throw_action what) t w w' h calm =
    subst (Kept w) (next-injective h) (record { starting = refl; shutdown = refl; state = refl })
thread_step-Kept (Phase.build_phase o) (Action.build_action c) t w w' h calm =
    subst (Kept w) (next-injective h) (record { starting = refl; shutdown = refl; state = refl })
thread_step-Kept (Phase.build_phase o) (Action.throw_action what) t w w' h calm =
    subst (Kept w) (next-injective h) (record { starting = refl; shutdown = refl; state = refl })
thread_step-Kept (Phase.install_phase s) Action.install_action t w w' h calm =
    subst (Kept w) (next-injective h) (record { starting = refl; shutdown = refl; state = refl })
thread_step-Kept (Phase.clear_phase s) (Action.clear_action elapsed) t w w' h calm =
    subst (Kept w) (next-injective h) (record { starting = refl; shutdown = refl; state = refl })
thread_step-Kept (Phase.finish_phase i r) Action.finish_action t w w' h calm = absurd (cc)
thread_step-Kept (Phase.complete_phase r) Action.complete_action t w w' h calm =
    subst (Kept w) (next-injective h) (record { starting = refl; shutdown = refl; state = refl })
thread_step-Kept _ _ t w w' h calm = absurd (cc)

-- A thread that takes a step is not joined.
Free-thread :
    (c c' : Controller) (t : Thread)
    → c.scan_thread ≡ some t
    → c'.shutdown_requested ≡ c.shutdown_requested
    → c'.state ≡ c.state
    → Free c
    → Free c'
Free-thread c c' t at shutdown state (inl stop) = inl (shutdown ∙ stop)
Free-thread c c' t at shutdown state (inr (inl busy)) = inr (inl (ap is_scanning state ∙ busy))
Free-thread c c' t at shutdown state (inr (inr unused)) = absurd (cc)

thread-Ready :
    (seen : Bool) (a : Action) (w w' : World)
    → on_thread a w ≡ Outcome.next w'
    → after false a ≡ false
    → Ready seen w
    → Ready seen w'
unfolding on_thread
thread-Ready seen a w w' h calm ready id at apart = elim (Option-cases w.controller.scan_thread) [
  | inl unused ↦
      let e : on_thread a w ≡ Outcome.waits = simp (unused, on_thread) refl in
      absurd (let bad : Outcome.waits ≡ Outcome.next w' = sym e ∙ h in cc)
  | inr (t, here) ↦
      let e : on_thread a w ≡ thread_step t.phase a t w = simp (here, on_thread) refl in
      let k : Kept w w' = thread_step-Kept t.phase a t w w' (sym e ∙ h) calm in
      Free-thread w.controller w'.controller t here k.shutdown k.state
        (ready id (sym k.starting ∙ at) apart)
]

join-Ready :
    (id : ℕ) (w w' : World) (o : Outcome Controller)
    → join_finished_scan w.controller ≡ o
    → then_next o (λ c. Outcome.next (record w { controller = c; starting = some id }))
      ≡ Outcome.next w'
    → Ready false w'
join-Ready id w w' (Outcome.next c) joined h other at apart =
    subst (λ x. Free x.controller) (next-injective h) (join-Free w.controller c joined)
join-Ready id w w' Outcome.waits joined h other at apart = absurd (cc)
join-Ready id w w' Outcome.terminates joined h other at apart = absurd (cc)

join_step-Ready :
    (id : ℕ) (o : Option ℕ) (w w' : World) → join_step id o w ≡ Outcome.next w' → Ready false w'
unfolding join_step
join_step-Ready id none w w' h = join-Ready id w w' (join_finished_scan w.controller) refl h
join_step-Ready id (some other) w w' h = absurd (cc)

with_started-starting :
    (id : ℕ) (w w' : World) (o : Outcome (Controller × Result ScanStarted))
    → then_next o (with_started id w) ≡ Outcome.next w'
    → w'.starting ≡ w.starting
with_started-starting id w w' (Outcome.next (c, failure e)) h =
    ap (λ x. x.starting) (sym (next-injective h))
with_started-starting id w w' (Outcome.next (c, success s)) h =
    ap (λ x. x.starting) (sym (next-injective h))
with_started-starting id w w' Outcome.waits h = absurd (cc)
with_started-starting id w w' Outcome.terminates h = absurd (cc)

enter_step-closed :
    (o : Option ℕ) (w w' : World) → enter_step o w ≡ Outcome.next w' → w'.starting ≡ none
unfolding enter_step
enter_step-closed none w w' h = absurd (cc)
enter_step-closed (some id) w w' h =
    with_started-starting id (record w { starting = none }) w' (enter_scan id w.controller) h

cancel_scan-Free : (c : Controller) → Free c → Free (cancel_scan c).0
unfolding cancel_scan
cancel_scan-Free c free = elim (Bool-cases (is_scanning c.state)) [
  | inl busy ↦
      let e : (cancel_scan c).0 ≡ record c { cancelled = true } = simp (busy, cancel_scan) refl in
      subst Free (sym e) (inr (inl busy))
  | inr quiet ↦
      let e : (cancel_scan c).0 ≡ c = simp (quiet, cancel_scan) refl in subst Free (sym e) free
]

begin_shutdown-Free : (c : Controller) → Free (begin_shutdown c)
unfolding begin_shutdown
begin_shutdown-Free c = elim (Bool-cases c.shutdown_requested) [
  | inl stop ↦
      let e : begin_shutdown c ≡ c = simp (stop, begin_shutdown) refl in
      subst Free (sym e) (inl stop)
  | inr running ↦
      let e : (begin_shutdown c).shutdown_requested ≡ true = simp (running, begin_shutdown) refl in
      inl e
]

end-Free :
    (w w' : World) (o : Outcome Controller)
    → then_next o (λ c. Outcome.next (record w { controller = c })) ≡ Outcome.next w'
    → ((c : Controller) → o ≡ Outcome.next c → c.shutdown_requested ≡ true)
    → Free w'.controller
end-Free w w' (Outcome.next c) h stop =
    subst (λ x. Free x.controller) (next-injective h) (inl (stop c refl))
end-Free w w' Outcome.waits h stop = absurd (cc)
end-Free w w' Outcome.terminates h stop = absurd (cc)

end_shutdown-stop :
    (c c' : Controller)
    → c.shutdown_requested ≡ true
    → end_shutdown c ≡ Outcome.next c'
    → c'.shutdown_requested ≡ true
unfolding end_shutdown join_thread
end_shutdown-stop c c' stop h = elim (Option-cases c.scan_thread) [
  | inl unused ↦
      let e : end_shutdown c ≡ Outcome.next (record c { state = state_of c.current_snapshot }) =
        simp (unused, end_shutdown) refl in
      ap (λ x. x.shutdown_requested) (sym (next-injective (sym e ∙ h))) ∙ stop
  | inr (t, at) ↦ elim (Bool-cases (is_ended t.phase)) [
    | inl over ↦
        let e : end_shutdown c
            ≡ Outcome.next (record c { scan_thread = none; state = state_of c.current_snapshot }) =
          simp (at, over, end_shutdown, join_thread) refl in
        ap (λ x. x.shutdown_requested) (sym (next-injective (sym e ∙ h))) ∙ stop
    | inr runs ↦
        let e : end_shutdown c ≡ Outcome.waits = simp (at, runs, end_shutdown, join_thread) refl in
        absurd (let bad : Outcome.waits ≡ Outcome.next c' = sym e ∙ h in cc)
  ]
]

pub step-Ready :
    (seen : Bool) (a : Action) (w w' : World)
    → step a w ≡ Outcome.next w'
    → Ready seen w
    → Ready (after seen a) w'
unfolding step
step-Ready seen (Action.start_action id) w w' h ready = join_step-Ready id w.starting w w' h
step-Ready seen Action.enter_action w w' h ready =
    λ id at apart. absurd (let closed = enter_step-closed w.starting w w' h in cc)
step-Ready seen Action.finish_action w w' h ready = λ id at apart. absurd (cc)
step-Ready seen Action.cancel_action w w' h ready = λ id at apart.
    subst (λ x. Free x.controller) (next-injective h)
      (cancel_scan-Free w.controller
        (ready id (ap (λ x. x.starting) (next-injective h) ∙ at) apart))
step-Ready seen Action.begin_shutdown_action w w' h ready = λ id at apart.
    subst (λ x. Free x.controller) (next-injective h) (begin_shutdown-Free w.controller)
step-Ready seen Action.end_shutdown_action w w' h ready = λ id at apart.
    elim (Bool-cases w.controller.shutdown_requested) [
      | inl stop ↦
          end-Free w w' (end_shutdown w.controller) (simp stop at h)
            (λ c e. end_shutdown-stop w.controller c stop e)
      | inr running ↦ absurd (let bad = simp running at h in cc)
    ]
step-Ready seen (Action.scan_action r) w w' h ready =
    thread-Ready seen (Action.scan_action r) w w' h refl ready
step-Ready seen (Action.build_action c) w w' h ready =
    thread-Ready seen (Action.build_action c) w w' h refl ready
step-Ready seen (Action.throw_action what) w w' h ready =
    thread-Ready seen (Action.throw_action what) w w' h refl ready
step-Ready seen Action.install_action w w' h ready =
    thread-Ready seen Action.install_action w w' h refl ready
step-Ready seen (Action.clear_action elapsed) w w' h ready =
    thread-Ready seen (Action.clear_action elapsed) w w' h refl ready
step-Ready seen Action.complete_action w w' h ready =
    thread-Ready seen Action.complete_action w w' h refl ready
