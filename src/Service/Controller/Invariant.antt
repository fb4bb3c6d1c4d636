-- ===== src/Service/Controller/Invariant.antt =====
-- What holds of the controller of src/service/ServiceController.cpp after any steps.
use core_desk.Base.{
  ℕ, suc, ◌<◌, if◌then◌else◌, ◌≡◌, refl, Bool, true, false, List, [], ◌∷◌, ◌++◌, map, Option, none,
  some, length, All,
}
use core_desk.Index.Snapshot.{IndexSnapshot}
use core_desk.Index.SearchEngine.Bounds.{IsIndexed}
use core_desk.Service.Controller.{is_scanning, Phase, Thread, is_ended, state_of}
use core_desk.Service.Controller.Steps.{World, new_world}

-- A scan that has not set the state yet.
abbrev pub is_active : Phase → Bool
is_active (Phase.complete_phase r) = false
is_active Phase.ended_phase = false
is_active _ = true

abbrev pub thread_active : Option Thread → Bool
thread_active none = false
thread_active (some t) = is_active t.phase

-- A scan whose callback has not been called.
abbrev pub pending : Option Thread → List ℕ
pending none = []
pending (some t) = if is_ended t.phase then [] else t.request_id ∷ []

abbrev pub newest : List IndexSnapshot → Option IndexSnapshot
newest [] = none
newest (s ∷ ss) = some s

-- Snapshots with the generations 1, 2, ... in the order in which they were installed.
abbrev pub Numbered : List IndexSnapshot → Type 0
Numbered [] = Unit
Numbered (s ∷ ss) = (s.generation ≡ suc (length ss)) × Numbered ss

-- The snapshot that waits to be installed.
abbrev pub waiting_in : Phase → List IndexSnapshot
waiting_in (Phase.install_phase s) = s ∷ []
waiting_in _ = []

abbrev pub waiting : Option Thread → List IndexSnapshot
waiting none = []
waiting (some t) = waiting_in t.phase

-- A scan that says that there is an index.
abbrev pub claims_in : Phase → Bool
claims_in (Phase.clear_phase s) = true
claims_in (Phase.finish_phase installed r) = installed
claims_in _ = false

abbrev pub claims : Option Thread → Bool
claims none = false
claims (some t) = claims_in t.phase

abbrev pub generations : ℕ
generations = 18446744073709551615

pub record Numbers (next : ℕ) (thread : Option Thread) (installed : List IndexSnapshot)
    : Type 0 where
  pub next_is : next ≡ suc (length installed)
  pub numbered : Numbered installed
  pub waits_for : All (λ s. s.generation ≡ next) (waiting thread)

pub record IsValid (w : World) : Type 0 where
  -- While a scan is active the state says so, and until a shutdown only then.
  pub active : thread_active w.controller.scan_thread ≡ true → is_scanning w.controller.state ≡ true
  pub idle :
      w.controller.shutdown_requested ≡ false
      → is_scanning w.controller.state ≡ true
      → thread_active w.controller.scan_thread ≡ true
  -- Otherwise the state tells whether there is an index.
  pub settled :
      is_scanning w.controller.state ≡ false
      → w.controller.state ≡ state_of w.controller.current_snapshot
  pub claimed : claims w.controller.scan_thread ≡ true → 0 < length w.installed
  pub current : w.controller.current_snapshot ≡ newest w.installed
  pub indexed : All IsIndexed w.installed × All IsIndexed (waiting w.controller.scan_thread)
  -- As long as the 64-bit generations do not run out.
  pub numbers :
      length w.installed < generations
      → Numbers w.controller.next_generation w.controller.scan_thread w.installed
  -- Each scan that was started is completed once, in order, but for the last, which may be pending.
  pub counted : w.started ≡ pending w.controller.scan_thread ++ map (λ c. c.0) w.completed

pub new_world-IsValid : IsValid new_world
new_world-IsValid = record {
  active = λ h. absurd (cc);
  idle = λ _ h. absurd (cc);
  settled = λ _. refl;
  claimed = λ h. absurd (cc);
  current = refl;
  indexed = (tt, tt);
  numbers = λ _. record { next_is = refl; numbered = tt; waits_for = tt };
  counted = refl;
}
