-- ===== src/Service/Controller/Safety.antt =====
-- Any steps of the controller, from its start.
use core_desk.Base.{
  ℕ, zero, suc, ◌+◌, ◌<◌, ◌≡◌, refl, sym, ap, ◌∙◌, subst, Bool, Bool-cases, Option, Option-cases,
  none, inl, inr, true, false, List, [], ◌∷◌, ◌++◌, map, some, length, get_elem?, arith,
}
use mathlib.Core.Option.{some-injective}
use core_desk.Index.Snapshot.{IndexSnapshot}
use core_desk.Service.Controller.{Phase, Thread, Outcome, then_next, join_finished_scan}
use core_desk.Service.Controller.Steps.{
  World, new_world, Action, join_step, enter_step, thread_step, on_thread, step, steps, overtakes,
}
use core_desk.Service.Controller.Invariant.{
  pending, Numbered, generations, IsValid, new_world-IsValid,
}
use core_desk.Service.Controller.ThreadSteps.{thread_step-IsValid}
use core_desk.Service.Controller.Windows.{Ready, after, overtakes-after, step-Ready}
use core_desk.Service.Controller.Calls.{
  Sound, starting-IsValid, cancel_scan-IsValid, begin_shutdown-IsValid, enter-Sound, join-Sound,
  end-Sound,
}

thread_step-goes_on :
    (phase : Phase) (a : Action) (t : Thread) (w : World)
    → thread_step phase a t w ≡ Outcome.terminates
    → true ≡ false
unfolding thread_step
thread_step-goes_on Phase.scan_phase (Action.scan_action r) t w h = absurd (cc)
thread_step-goes_on Phase.scan_phase (Action.throw_action what) t w h = absurd (cc)
thread_step-goes_on (Phase.build_phase o) (Action.build_action c) t w h = absurd (cc)
thread_step-goes_on (Phase.build_phase o) (Action.throw_action what) t w h = absurd (cc)
thread_step-goes_on (Phase.install_phase s) Action.install_action t w h = absurd (cc)
thread_step-goes_on (Phase.clear_phase s) (Action.clear_action elapsed) t w h = absurd (cc)
thread_step-goes_on (Phase.finish_phase i r) Action.finish_action t w h = absurd (cc)
thread_step-goes_on (Phase.complete_phase r) Action.complete_action t w h = absurd (cc)
thread_step-goes_on _ _ t w h = absurd (cc)

outcome-Sound :
    (a : Action) (t : Thread) (w : World)
    → IsValid w
    → w.controller.scan_thread ≡ some t
    → (o : Outcome World) → thread_step t.phase a t w ≡ o
    → Sound false o
outcome-Sound a t w v at (Outcome.next w') h = thread_step-IsValid t.phase a t w w' v at refl h
outcome-Sound a t w v at Outcome.waits h = tt
outcome-Sound a t w v at Outcome.terminates h =
    absurd (let bad = thread_step-goes_on t.phase a t w h in cc)

thread-Sound : (a : Action) (w : World) → IsValid w → Sound false (on_thread a w)
unfolding on_thread
thread-Sound a w v = elim (Option-cases w.controller.scan_thread) [
  | inl unused ↦ simp (unused, on_thread) tt
  | inr (t, at) ↦
      let e : on_thread a w ≡ thread_step t.phase a t w = simp (at, on_thread) refl in
      subst (Sound false) (sym e) (outcome-Sound a t w v at (thread_step t.phase a t w) refl)
]

join_step-Sound : (id : ℕ) (o : Option ℕ) (w : World) → IsValid w → Sound false (join_step id o w)
unfolding join_step
join_step-Sound id none w v = join-Sound id w v (join_finished_scan w.controller) refl
join_step-Sound id (some other) w v = tt

enter_step-Sound :
    (seen : Bool) (o : Option ℕ) (w : World)
    → IsValid w
    → Ready seen w
    → w.starting ≡ o
    → Sound seen (enter_step o w)
unfolding enter_step
enter_step-Sound seen none w v ready at = tt
enter_step-Sound seen (some id) w v ready at =
    enter-Sound seen id (record w { starting = none }) (starting-IsValid none w v) (ready id at)

-- Whether the action can end the program.
abbrev ends : Bool → Action → Bool
ends seen Action.enter_action = seen
ends seen _ = false

step-Sound :
    (seen : Bool) (a : Action) (w : World)
    → IsValid w
    → Ready seen w
    → Sound (ends seen a) (step a w)
unfolding step
step-Sound seen (Action.start_action id) w v ready = join_step-Sound id w.starting w v
step-Sound seen Action.enter_action w v ready = enter_step-Sound seen w.starting w v ready refl
step-Sound seen Action.cancel_action w v ready = cancel_scan-IsValid w v
step-Sound seen Action.begin_shutdown_action w v ready = begin_shutdown-IsValid w v
step-Sound seen Action.end_shutdown_action w v ready =
    elim (Bool-cases w.controller.shutdown_requested) [
      | inl stop ↦ simp (stop, step) (end-Sound w v stop)
      | inr running ↦ simp (running, step) tt
    ]
step-Sound seen a w v ready = thread-Sound a w v

then_next-Sound :
    (first raced : Bool) (o : Outcome World) (f : World → Outcome World)
    → Sound first o
    → (first ≡ true → raced ≡ true)
    → ((w : World) → o ≡ Outcome.next w → IsValid w → Sound raced (f w))
    → Sound raced (then_next o f)
then_next-Sound first raced (Outcome.next w) f v wider later = later w refl v
then_next-Sound first raced Outcome.waits f v wider later = tt
then_next-Sound first raced Outcome.terminates f v wider later = wider v

Sound-wider : (r r' : Bool) (o : Outcome World) → (r ≡ true → r' ≡ true) → Sound r o → Sound r' o
Sound-wider r r' (Outcome.next w) wider v = v
Sound-wider r r' Outcome.waits wider v = tt
Sound-wider r r' Outcome.terminates wider v = wider v

ends-overtakes :
    (seen : Bool) (a : Action) (actions : List Action)
    → ends seen a ≡ true
    → overtakes seen (a ∷ actions) ≡ true
ends-overtakes seen Action.enter_action actions h = simp h refl
ends-overtakes seen _ actions h = absurd (cc)

-- Whatever calls of `start_scan`, `cancel_scan` and `shutdown` are made, the scan thread does and the
-- file system, the clock and exceptions decide, in any order, the controller stays valid, and the
-- program ends only where a scan sets its state between the two locks of a `start_scan`.
pub steps-Sound :
    (seen : Bool) (actions : List Action) (w : World)
    → IsValid w
    → Ready seen w
    → Sound (overtakes seen actions) (steps actions w)
steps-Sound seen [] w v ready = v
steps-Sound seen (a ∷ actions) w v ready =
    then_next-Sound (ends seen a) (overtakes seen (a ∷ actions)) (step a w) (steps actions)
      (step-Sound seen a w v ready) (ends-overtakes seen a actions)
      (λ w' h v'.
        Sound-wider _ _ (steps actions w') (overtakes-after seen a actions)
          (steps-Sound (after seen a) actions w' v' (step-Ready seen a w w' h ready)))

Sound-IsValid :
    (raced : Bool) (o : Outcome World) (w : World) → Sound raced o → o ≡ Outcome.next w → IsValid w
Sound-IsValid raced o w sound h = subst (Sound raced) h sound

-- From the start of the service on, whatever calls of `start_scan`, `cancel_scan` and `shutdown` are
-- made, the scan thread does and the file system, the clock and exceptions decide, in any order, with
-- one `start_scan` at a time: the program ends by `std::terminate` only where a scan sets its state
-- between the two times that a `start_scan` holds the lock, and after steps that neither wait nor end
-- it the controller is valid: its state tells whether a scan is active and whether there is an index,
-- the current snapshot is the one that was installed last, and all positions of snapshots are in range.
pub steps-new_world :
    (actions : List Action) → Sound (overtakes false actions) (steps actions new_world)
steps-new_world actions =
    steps-Sound false actions new_world new_world-IsValid (λ id at _. absurd (cc))

-- Each scan that was started is completed once, in the order of the starts, but for the last one
-- while its thread runs.
pub steps-completed :
    (actions : List Action) (w : World)
    → steps actions new_world ≡ Outcome.next w
    → w.started ≡ pending w.controller.scan_thread ++ map (λ c. c.0) w.completed
steps-completed actions w h =
    (Sound-IsValid (overtakes false actions) (steps actions new_world) w (steps-new_world actions)
      h).counted

Numbered-at :
    (ss : List IndexSnapshot) (i : ℕ) (s : IndexSnapshot)
    → Numbered ss
    → get_elem? ss i ≡ some s
    → s.generation + i ≡ length ss
Numbered-at [] i s n h = absurd (cc)
Numbered-at (x ∷ ss) zero s n h =
    let same : x ≡ s = some-injective x s h in omega (arith, ap (λ y. y.generation) same, n.0)
Numbered-at (x ∷ ss) (suc i) s n h = omega (arith, Numbered-at ss i s n.1 h)

-- Until the 64-bit generations run out, a generation names one of the snapshots that were installed.
pub steps-generation :
    (actions : List Action) (w : World) (i j : ℕ) (s s' : IndexSnapshot)
    → steps actions new_world ≡ Outcome.next w
    → length w.installed < generations
    → get_elem? w.installed i ≡ some s
    → get_elem? w.installed j ≡ some s'
    → s.generation ≡ s'.generation
    → s ≡ s'
steps-generation actions w i j s s' h few at at' same =
    let n =
      ((Sound-IsValid (overtakes false actions) (steps actions new_world) w
          (steps-new_world actions) h).numbers
        few).numbered in
    let ij : i ≡ j =
      omega (arith, Numbered-at w.installed i s n at, Numbered-at w.installed j s' n at', same) in
    some-injective s s' (sym at ∙ ap (get_elem? w.installed) ij ∙ at')
