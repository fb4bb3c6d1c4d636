-- ===== src/Service/Controller/ThreadSteps.antt =====
-- The steps of the scan thread keep the invariant.
use core_desk.Base.{
  ℕ, ◌<◌, if◌then◌else◌, ◌≡◌, refl, sym, ap, ◌∙◌, subst, Bool-cases, inl, inr, Bool, true, false,
  List, [], ◌∷◌, ◌++◌, map, Option, none, some, length, All, arith,
}
use core_desk.Common.{Result, success, failure}
use core_desk.Index.Snapshot.{IndexSnapshot}
use core_desk.Index.IndexBuilder.{ScanOutput, build}
use core_desk.Index.IndexBuilder.Bounds.{build-IsIndexed}
use core_desk.Index.SearchEngine.Bounds.{IsIndexed}
use core_desk.Index.SearchEngine.Engine.{SearchEngine, clear_cache}
use core_desk.Protocol.Payload.Scan.{ScanCompletedPayload}
use core_desk.Service.Controller.{
  ServiceState, is_scanning, Phase, Thread, Outcome, is_ended, state_of, finish_scan_state,
}
use core_desk.Service.Controller.Steps.{
  World, Action, at_phase, failed, after_build, thrown, install, finish, thread_step,
}
use core_desk.Service.Controller.Invariant.{
  is_active, thread_active, pending, newest, waiting_in, waiting, claims_in, claims, generations,
  IsValid,
}

next-injective {ℓ} : {A : Type ℓ} {a b : A} → Outcome.next a ≡ Outcome.next b → a ≡ b
next-injective h = cc

active_not_ended : (phase : Phase) → is_active phase ≡ true → is_ended phase ≡ false
active_not_ended Phase.ended_phase h = absurd (cc)
active_not_ended _ h = refl

-- The scan goes on to another phase before `finish_scan_state`.
at_phase-IsValid :
    (w : World) (t : Thread) (phase : Phase)
    → IsValid w
    → w.controller.scan_thread ≡ some t
    → is_active t.phase ≡ true
    → is_active phase ≡ true
    → All IsIndexed (waiting (some (record t { phase = phase })))
    → (length w.installed < generations
        → All
            (λ s. s.generation ≡ w.controller.next_generation)
            (waiting (some (record t { phase = phase }))))
    → (claims_in phase ≡ true → 0 < length w.installed)
    → IsValid (at_phase w t phase)
at_phase-IsValid w t phase v at was is indexed' waits' claimed' = record {
  active = λ _. v.active (ap thread_active at ∙ was);
  idle = λ _ _. is;
  settled = v.settled;
  claimed = claimed';
  current = v.current;
  indexed = (v.indexed.0, indexed');
  numbers = λ few. record {
    next_is = (v.numbers few).next_is;
    numbered = (v.numbers few).numbered;
    waits_for = waits' few;
  };
  counted =
      v.counted
      ∙ ap (λ x. pending x ++ map (λ c. c.0) w.completed) at
      ∙ ground (arith, active_not_ended t.phase was, active_not_ended phase is);
}

after_build-IsValid :
    (w : World) (t : Thread) (output : ScanOutput) (cancelled : ℕ → Bool) (r : Result IndexSnapshot)
    → IsValid w
    → w.controller.scan_thread ≡ some t
    → is_active t.phase ≡ true
    → build w.controller.next_generation output cancelled ≡ r
    → IsValid (at_phase w t (after_build r))
after_build-IsValid w t output cancelled (failure e) v at was built =
    at_phase-IsValid w t (failed e) v at was refl tt (λ _. tt) (λ h. absurd (cc))
after_build-IsValid w t output cancelled (success s) v at was built =
    let (generation, _, in_range) =
      build-IsIndexed w.controller.next_generation output cancelled s built in
    at_phase-IsValid w t (Phase.install_phase s) v at was refl (in_range, tt)
      (λ _. (generation, tt)) (λ h. absurd (cc))

install-IsValid :
    (w : World) (t : Thread) (s : IndexSnapshot)
    → IsValid w
    → w.controller.scan_thread ≡ some t
    → t.phase ≡ Phase.install_phase s
    → IsValid (install w t s)
unfolding install
install-IsValid w t s v at is =
    let waits_s : waiting w.controller.scan_thread ≡ s ∷ [] = ap waiting at ∙ ap waiting_in is in
    record {
      active = λ _. v.active (ap thread_active at ∙ ap is_active is);
      idle = λ _ _. refl;
      settled = λ calm. absurd (let busy = v.active (ap thread_active at ∙ ap is_active is) in cc);
      claimed = λ _. omega arith;
      current = refl;
      indexed = (((subst (All IsIndexed) waits_s v.indexed.1).0, v.indexed.0), tt);
      numbers = λ few.
          let n = v.numbers (omega (arith, few)) in
          let gen : s.generation ≡ w.controller.next_generation =
            (subst (All λ x. x.generation ≡ w.controller.next_generation) waits_s n.waits_for).0 in
          record {
            next_is = omega (arith, gen, n.next_is, few);
            numbered = (gen ∙ n.next_is, n.numbered);
            waits_for = tt;
          };
      counted =
          v.counted
          ∙ ap (λ x. pending x ++ map (λ c. c.0) w.completed) at
          ∙ ground (arith, ap is_ended is);
    }

-- The scan has set the state, or left it to the shutdown.
completing : World → Thread → Result ScanCompletedPayload → ServiceState → World
completing w t r state = record w {
  controller = record w.controller {
    state = state;
    scan_thread = some (record t { phase = Phase.complete_phase r });
  };
}

completing-IsValid :
    (w : World) (t : Thread) (r : Result ScanCompletedPayload) (state : ServiceState)
    → IsValid w
    → pending w.controller.scan_thread ≡ t.request_id ∷ []
    → (w.controller.shutdown_requested ≡ false → is_scanning state ≡ false)
    → (is_scanning state ≡ false → state ≡ state_of w.controller.current_snapshot)
    → IsValid (completing w t r state)
unfolding completing
completing-IsValid w t r state v one calm settled' = record {
  active = λ h. absurd (cc);
  idle = λ running busy. absurd (let quiet = calm running in cc);
  settled = settled';
  claimed = λ h. absurd (cc);
  current = v.current;
  indexed = (v.indexed.0, tt);
  numbers = λ few. record {
    next_is = (v.numbers few).next_is;
    numbered = (v.numbers few).numbered;
    waits_for = tt;
  };
  counted = v.counted ∙ ap (λ x. x ++ map (λ c. c.0) w.completed) one;
}

state_of-quiet : (s : Option IndexSnapshot) → is_scanning (state_of s) ≡ false
state_of-quiet none = refl
state_of-quiet (some s) = refl

-- With a snapshot in place, both ways to set the state agree.
finished_state :
    (installed : Bool) (ss : List IndexSnapshot)
    → (installed ≡ true → 0 < length ss)
    → (if installed then ServiceState.ready else state_of (newest ss)) ≡ state_of (newest ss)
finished_state false ss h = refl
finished_state true [] h = absurd (omega (arith, h refl))
finished_state true (s ∷ ss) h = refl

finish-IsValid :
    (w : World) (t : Thread) (installed : Bool) (r : Result ScanCompletedPayload)
    → IsValid w
    → w.controller.scan_thread ≡ some t
    → t.phase ≡ Phase.finish_phase installed r
    → IsValid (finish w t installed r)
unfolding finish finish_scan_state completing
finish-IsValid w t installed r v at is =
    let one : pending w.controller.scan_thread ≡ t.request_id ∷ [] =
      ap pending at ∙ ground (arith, ap is_ended is) in
    let cur = w.controller.current_snapshot in
    let same : (if installed then ServiceState.ready else state_of cur) ≡ state_of cur =
      subst (λ x. (if installed then ServiceState.ready else state_of x) ≡ state_of x)
        (sym v.current)
        (finished_state installed w.installed
          λ i. v.claimed (ap claims at ∙ ap claims_in is ∙ i)) in
    elim (Bool-cases w.controller.shutdown_requested) [
      | inl stop ↦
          subst IsValid (rw (stop, finish) refl)
            (completing-IsValid w t r w.controller.state v one (λ running. absurd (cc)) v.settled)
      | inr calm ↦ subst IsValid (rw (calm, finish) refl) (
          completing-IsValid w t r (if installed then ServiceState.ready else state_of cur) v one
            (λ _. ap is_scanning same ∙ state_of-quiet cur) (λ _. same))
    ]

abbrev with_engine : World → SearchEngine → World
with_engine w engine = record w { controller = record w.controller { search_engine = engine } }

with_engine-IsValid :
    (w : World) (engine : SearchEngine) → IsValid w → IsValid (with_engine w engine)
with_engine-IsValid w engine v = record {
  active = v.active;
  idle = v.idle;
  settled = v.settled;
  claimed = v.claimed;
  current = v.current;
  indexed = v.indexed;
  numbers = v.numbers;
  counted = v.counted;
}

-- The callback has been called.
complete-IsValid :
    (w : World) (t : Thread) (r : Result ScanCompletedPayload)
    → IsValid w
    → w.controller.scan_thread ≡ some t
    → t.phase ≡ Phase.complete_phase r
    → IsValid (record w {
      controller = record w.controller {
        scan_thread = some (record t { phase = Phase.ended_phase });
      };
      completed = (t.request_id, r) ∷ w.completed;
    })
complete-IsValid w t r v at is = record {
  active = λ h. absurd (cc);
  idle = λ running busy.
      let was = v.idle running busy in
      let quiet : thread_active w.controller.scan_thread ≡ false =
        ap thread_active at ∙ ap is_active is in
      absurd (cc);
  settled = v.settled;
  claimed = λ h. absurd (cc);
  current = v.current;
  indexed = (v.indexed.0, tt);
  numbers = λ few. record {
    next_is = (v.numbers few).next_is;
    numbered = (v.numbers few).numbered;
    waits_for = tt;
  };
  counted =
      v.counted
      ∙ ap (λ x. pending x ++ map (λ c. c.0) w.completed) at
      ∙ ground (arith, ap is_ended is);
}

pub thread_step-IsValid :
    (phase : Phase) (action : Action) (t : Thread) (w w' : World)
    → IsValid w
    → w.controller.scan_thread ≡ some t
    → t.phase ≡ phase
    → thread_step phase action t w ≡ Outcome.next w'
    → IsValid w'
unfolding thread_step install
thread_step-IsValid Phase.scan_phase (Action.scan_action (failure e)) t w w' v at is h =
    subst IsValid (next-injective h)
      (at_phase-IsValid w t (failed e) v at (ap is_active is) refl tt (λ _. tt) (λ h. absurd (cc)))
thread_step-IsValid Phase.scan_phase (Action.scan_action (success output)) t w w' v at is h =
    subst IsValid (next-injective h) (
      at_phase-IsValid w t (Phase.build_phase output) v at (ap is_active is) refl tt (λ _. tt)
        (λ h. absurd (cc)))
thread_step-IsValid Phase.scan_phase (Action.throw_action what) t w w' v at is h =
    subst IsValid (next-injective h) (
      at_phase-IsValid w t (thrown what) v at (ap is_active is) refl tt (λ _. tt)
        (λ h. absurd (cc)))
thread_step-IsValid (Phase.build_phase output) (Action.build_action cancelled) t w w' v at is h =
    subst IsValid (next-injective h)
      (after_build-IsValid w t output cancelled _ v at (ap is_active is) refl)
thread_step-IsValid (Phase.build_phase output) (Action.throw_action what) t w w' v at is h =
    subst IsValid (next-injective h) (
      at_phase-IsValid w t (thrown what) v at (ap is_active is) refl tt (λ _. tt)
        (λ h. absurd (cc)))
thread_step-IsValid (Phase.install_phase snapshot) Action.install_action t w w' v at is h =
    subst IsValid (next-injective h) (install-IsValid w t snapshot v at is)
thread_step-IsValid (Phase.clear_phase snapshot) (Action.clear_action elapsed) t w w' v at is h =
    subst IsValid (next-injective h) (
      at_phase-IsValid (with_engine w (clear_cache w.controller.search_engine)) t _
        (with_engine-IsValid w (clear_cache w.controller.search_engine) v) at (ap is_active is) refl
        tt (λ _. tt) (λ _. v.claimed (ap claims at ∙ ap claims_in is)))
thread_step-IsValid (Phase.finish_phase installed r) Action.finish_action t w w' v at is h =
    subst IsValid (next-injective h) (finish-IsValid w t installed r v at is)
thread_step-IsValid (Phase.complete_phase r) Action.complete_action t w w' v at is h =
    subst IsValid (next-injective h) (complete-IsValid w t r v at is)
thread_step-IsValid _ _ t w w' v at is h = absurd (cc)
