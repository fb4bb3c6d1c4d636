-- ===== src/Concurrency/ThreadPool/Workers.antt =====
-- The workers of a pool: how many run a task, whether one is awake, and whether one has ended.
use core_desk.Base.{
  ℕ, zero, suc, ◌+◌, ◌≡◌, refl, ap, Bool, true, false, Bool-cases, inl, inr, ◌||◌, List, [], ◌∷◌,
  some, get_elem?, arith, length, ◌≤◌,
}
use mathlib.Core.Option.{some-injective}
use core_desk.Concurrency.ThreadPool.{
  Worker, is_asleep, any_asleep, set_at, notify_one, notify_all, all_ended,
}

abbrev pub runs : Worker → ℕ
runs (Worker.running t) = 1
runs _ = 0

abbrev pub running_count : List Worker → ℕ
running_count [] = 0
running_count (w ∷ ws) = runs w + running_count ws

-- A worker that runs a task or is about to look at the queue.
abbrev pub is_awake : Worker → Bool
is_awake Worker.checking = true
is_awake (Worker.running t) = true
is_awake _ = false

abbrev pub any_awake : List Worker → Bool
any_awake [] = false
any_awake (w ∷ ws) = is_awake w || any_awake ws

abbrev pub is_ended : Worker → Bool
is_ended Worker.ended = true
is_ended _ = false

abbrev pub any_ended : List Worker → Bool
any_ended [] = false
any_ended (w ∷ ws) = is_ended w || any_ended ws

pub running_count-set_at :
    (i : ℕ) (v w : Worker) (ws : List Worker)
    → get_elem? ws i ≡ some v
    → running_count (set_at i w ws) + runs v ≡ running_count ws + runs w
running_count-set_at i v w [] at = absurd (cc)
running_count-set_at zero v w (x ∷ ws) at =
    let same : x ≡ v = some-injective x v at in omega (arith, ap runs same)
running_count-set_at (suc i) v w (x ∷ ws) at = omega (arith, running_count-set_at i v w ws at)

pub any_awake-set_at :
    (i : ℕ) (v w : Worker) (ws : List Worker)
    → get_elem? ws i ≡ some v
    → is_awake w ≡ true
    → any_awake (set_at i w ws) ≡ true
any_awake-set_at i v w [] at awake = absurd (cc)
any_awake-set_at zero v w (x ∷ ws) at awake = rw awake
any_awake-set_at (suc i) v w (x ∷ ws) at awake =
    let ih = any_awake-set_at i v w ws at awake in ground arith

neither : (a b : Bool) → (a || b) ≡ false → (a ≡ false) × (b ≡ false)
neither false b h = (refl, h)
neither true b h = absurd (cc)

pub any_ended-set_at :
    (i : ℕ) (w : Worker) (ws : List Worker)
    → is_ended w ≡ false
    → any_ended ws ≡ false
    → any_ended (set_at i w ws) ≡ false
any_ended-set_at i w [] e h = refl
any_ended-set_at zero w (x ∷ ws) e h = ground (arith, e, h)
any_ended-set_at (suc i) w (x ∷ ws) e h =
    let (a, b) = neither (is_ended x) (any_ended ws) h in rw a (any_ended-set_at i w ws e b)

pub any_asleep-set_at :
    (i : ℕ) (w : Worker) (ws : List Worker)
    → is_asleep w ≡ false
    → any_asleep ws ≡ false
    → any_asleep (set_at i w ws) ≡ false
any_asleep-set_at i w [] e h = refl
any_asleep-set_at zero w (x ∷ ws) e h = ground (arith, e, h)
any_asleep-set_at (suc i) w (x ∷ ws) e h =
    let (a, b) = neither (is_asleep x) (any_asleep ws) h in rw a (any_asleep-set_at i w ws e b)

-- A notification changes neither who runs a task nor who has ended.
pub running_count-notify_one :
    (ws : List Worker) (n : ℕ) → running_count (notify_one ws n) ≡ running_count ws
unfolding notify_one
running_count-notify_one [] n = refl
running_count-notify_one (Worker.asleep ∷ ws) zero = refl
running_count-notify_one (Worker.asleep ∷ ws) (suc n) = elim (Bool-cases (any_asleep ws)) [
  | inl more ↦ simp (more, notify_one) (omega (arith, running_count-notify_one ws n))
  | inr last ↦ simp (last, notify_one) refl
]
running_count-notify_one (Worker.checking ∷ ws) n = omega (arith, running_count-notify_one ws n)
running_count-notify_one (Worker.ended ∷ ws) n = omega (arith, running_count-notify_one ws n)
running_count-notify_one (Worker.running t ∷ ws) n = omega (arith, running_count-notify_one ws n)

pub any_ended-notify_one : (ws : List Worker) (n : ℕ) → any_ended (notify_one ws n) ≡ any_ended ws
unfolding notify_one
any_ended-notify_one [] n = refl
any_ended-notify_one (Worker.asleep ∷ ws) zero = refl
any_ended-notify_one (Worker.asleep ∷ ws) (suc n) = elim (Bool-cases (any_asleep ws)) [
  | inl more ↦ simp (more, notify_one) (any_ended-notify_one ws n)
  | inr last ↦ simp (last, notify_one) refl
]
any_ended-notify_one (Worker.checking ∷ ws) n = any_ended-notify_one ws n
any_ended-notify_one (Worker.ended ∷ ws) n = refl
any_ended-notify_one (Worker.running t ∷ ws) n = any_ended-notify_one ws n

-- Where no worker has ended, one is awake after a notification.
pub any_awake-notify_one :
    (ws : List Worker) (n : ℕ)
    → 1 ≤ length ws
    → any_ended ws ≡ false
    → any_awake (notify_one ws n) ≡ true
unfolding notify_one
any_awake-notify_one [] n some_worker h = absurd (omega (arith, some_worker))
any_awake-notify_one (Worker.asleep ∷ ws) zero some_worker h = refl
any_awake-notify_one (Worker.asleep ∷ ws) (suc n) some_worker h =
    elim (Bool-cases (any_asleep ws)) [
      | inl more ↦ simp (more, notify_one) (any_awake-notify_one ws n (asleep-length ws more) h)
      | inr last ↦ simp (last, notify_one) refl
    ]
  where
    asleep-length : (ws : List Worker) → any_asleep ws ≡ true → 1 ≤ length ws
    asleep-length [] h = absurd (cc)
    asleep-length (w ∷ ws) h = omega arith
any_awake-notify_one (Worker.checking ∷ ws) n some_worker h = refl
any_awake-notify_one (Worker.ended ∷ ws) n some_worker h = absurd (cc)
any_awake-notify_one (Worker.running t ∷ ws) n some_worker h = refl

pub running_count-notify_all : (ws : List Worker) → running_count (notify_all ws) ≡ running_count ws
unfolding notify_all
running_count-notify_all [] = refl
running_count-notify_all (Worker.asleep ∷ ws) = omega (arith, running_count-notify_all ws)
running_count-notify_all (Worker.checking ∷ ws) = omega (arith, running_count-notify_all ws)
running_count-notify_all (Worker.ended ∷ ws) = omega (arith, running_count-notify_all ws)
running_count-notify_all (Worker.running t ∷ ws) = omega (arith, running_count-notify_all ws)

pub any_awake-notify_all :
    (ws : List Worker) → any_awake ws ≡ true → any_awake (notify_all ws) ≡ true
unfolding notify_all
any_awake-notify_all [] h = h
any_awake-notify_all (Worker.asleep ∷ ws) h = refl
any_awake-notify_all (Worker.checking ∷ ws) h = refl
any_awake-notify_all (Worker.ended ∷ ws) h = any_awake-notify_all ws h
any_awake-notify_all (Worker.running t ∷ ws) h = refl

pub any_ended-notify_all : (ws : List Worker) → any_ended (notify_all ws) ≡ any_ended ws
unfolding notify_all
any_ended-notify_all [] = refl
any_ended-notify_all (Worker.asleep ∷ ws) = any_ended-notify_all ws
any_ended-notify_all (Worker.checking ∷ ws) = any_ended-notify_all ws
any_ended-notify_all (Worker.ended ∷ ws) = refl
any_ended-notify_all (Worker.running t ∷ ws) = any_ended-notify_all ws

pub any_asleep-notify_all : (ws : List Worker) → any_asleep (notify_all ws) ≡ false
unfolding notify_all
any_asleep-notify_all [] = refl
any_asleep-notify_all (Worker.asleep ∷ ws) = any_asleep-notify_all ws
any_asleep-notify_all (Worker.checking ∷ ws) = any_asleep-notify_all ws
any_asleep-notify_all (Worker.ended ∷ ws) = any_asleep-notify_all ws
any_asleep-notify_all (Worker.running t ∷ ws) = any_asleep-notify_all ws

-- The number of workers stays.
pub length-set_at : (i : ℕ) (w : Worker) (ws : List Worker) → length (set_at i w ws) ≡ length ws
length-set_at i w [] = refl
length-set_at zero w (x ∷ ws) = refl
length-set_at (suc i) w (x ∷ ws) = omega (arith, length-set_at i w ws)

pub length-notify_one : (ws : List Worker) (n : ℕ) → length (notify_one ws n) ≡ length ws
unfolding notify_one
length-notify_one [] n = refl
length-notify_one (Worker.asleep ∷ ws) zero = refl
length-notify_one (Worker.asleep ∷ ws) (suc n) = elim (Bool-cases (any_asleep ws)) [
  | inl more ↦ simp (more, notify_one) (omega (arith, length-notify_one ws n))
  | inr last ↦ simp (last, notify_one) refl
]
length-notify_one (Worker.checking ∷ ws) n = omega (arith, length-notify_one ws n)
length-notify_one (Worker.ended ∷ ws) n = omega (arith, length-notify_one ws n)
length-notify_one (Worker.running t ∷ ws) n = omega (arith, length-notify_one ws n)

pub length-notify_all : (ws : List Worker) → length (notify_all ws) ≡ length ws
unfolding notify_all
length-notify_all [] = refl
length-notify_all (Worker.asleep ∷ ws) = omega (arith, length-notify_all ws)
length-notify_all (Worker.checking ∷ ws) = omega (arith, length-notify_all ws)
length-notify_all (Worker.ended ∷ ws) = omega (arith, length-notify_all ws)
length-notify_all (Worker.running t ∷ ws) = omega (arith, length-notify_all ws)

-- A worker that is awake, in its place.
pub awake_at :
    (ws : List Worker)
    → any_awake ws ≡ true
    → (i : ℕ) × (w : Worker) × (get_elem? ws i ≡ some w) × (is_awake w ≡ true)
awake_at [] h = absurd (cc)
awake_at (w ∷ ws) h = elim (Bool-cases (is_awake w)) [
  | inl here ↦ (0, w, refl, here)
  | inr there ↦ let (i, v, at, awake) = awake_at ws (simp there at h) in (suc i, v, at, awake)
]

-- Where all have ended, none runs a task.
pub all_ended-running_count : (ws : List Worker) → all_ended ws ≡ true → running_count ws ≡ 0
all_ended-running_count [] h = refl
all_ended-running_count (Worker.ended ∷ ws) h = omega (arith, all_ended-running_count ws h)
all_ended-running_count (w ∷ ws) h = absurd (cc)

pub all_ended-awake : (ws : List Worker) → all_ended ws ≡ true → any_awake ws ≡ false
all_ended-awake [] h = refl
all_ended-awake (Worker.ended ∷ ws) h = all_ended-awake ws h
all_ended-awake (w ∷ ws) h = absurd (cc)

-- One that neither has ended nor sleeps is awake.
pub any_awake-left :
    (ws : List Worker) → all_ended ws ≡ false → any_asleep ws ≡ false → any_awake ws ≡ true
any_awake-left [] h a = absurd (cc)
any_awake-left (Worker.ended ∷ ws) h a = any_awake-left ws h a
any_awake-left (Worker.checking ∷ ws) h a = refl
any_awake-left (Worker.running t ∷ ws) h a = refl
any_awake-left (Worker.asleep ∷ ws) h a = absurd (cc)

-- One that runs a task is awake.
pub running_count-awake : (ws : List Worker) → 1 ≤ running_count ws → any_awake ws ≡ true
running_count-awake [] h = absurd (omega (arith, h))
running_count-awake (Worker.running t ∷ ws) h = refl
running_count-awake (Worker.checking ∷ ws) h = refl
running_count-awake (Worker.ended ∷ ws) h = running_count-awake ws (omega (arith, h))
running_count-awake (Worker.asleep ∷ ws) h = running_count-awake ws (omega (arith, h))
