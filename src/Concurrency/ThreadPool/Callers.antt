-- ===== src/Concurrency/ThreadPool/Callers.antt =====
-- The calls of `submit` and `wait_idle` of src/concurrency/ThreadPool.cpp: which sleep and are awake.
use core_desk.Base.{
  ℕ, zero, suc, ◌+◌, ◌≡◌, ◌≤◌, refl, true, false, Bool-cases, inl, inr, List, [], ◌∷◌, ◌++◌, some,
  get_elem?, arith,
}
use core_desk.Concurrency.ThreadPool.{
  Caller, is_asleep_caller, any_asleep_caller, set_caller, notify_caller, notify_callers,
}

abbrev pub one_awake : Caller → ℕ
one_awake (Caller.checking task) = 1
one_awake _ = 0

abbrev pub awake_count : List Caller → ℕ
awake_count [] = 0
awake_count (c ∷ cs) = one_awake c + awake_count cs

pub awake_count-set_caller :
    (i : ℕ) (b c : Caller) (cs : List Caller)
    → get_elem? cs i ≡ some b
    → awake_count (set_caller i c cs) + one_awake b ≡ awake_count cs + one_awake c
awake_count-set_caller i b c [] at = absurd (cc)
awake_count-set_caller zero b c (x ∷ cs) at =
    let e : one_awake x ≡ one_awake b = ground arith in omega (arith, e)
awake_count-set_caller (suc i) b c (x ∷ cs) at =
    let ih : awake_count (set_caller i c cs) + one_awake b ≡ awake_count cs + one_awake c =
      awake_count-set_caller i b c cs at in
    omega (arith, ih)

-- A caller that is set to another phase than asleep puts nobody to sleep.
pub any_asleep-set_caller :
    (i : ℕ) (c : Caller) (cs : List Caller)
    → is_asleep_caller c ≡ false
    → any_asleep_caller cs ≡ false
    → any_asleep_caller (set_caller i c cs) ≡ false
any_asleep-set_caller i c [] quiet none_asleep = refl
any_asleep-set_caller zero c (x ∷ cs) quiet none_asleep = ground (arith, quiet, none_asleep)
any_asleep-set_caller (suc i) c (x ∷ cs) quiet none_asleep =
    ground (arith, any_asleep-set_caller i c cs quiet, none_asleep)

pub any_asleep-append :
    (cs : List Caller) (c : Caller)
    → is_asleep_caller c ≡ false
    → any_asleep_caller cs ≡ false
    → any_asleep_caller (cs ++ c ∷ []) ≡ false
any_asleep-append [] c quiet none_asleep = ground (arith, quiet)
any_asleep-append (x ∷ cs) c quiet none_asleep =
    ground (arith, any_asleep-append cs c quiet, none_asleep)

pub awake_count-append :
    (cs : List Caller) (c : Caller) → awake_count (cs ++ c ∷ []) ≡ awake_count cs + one_awake c
awake_count-append [] c = omega arith
awake_count-append (x ∷ cs) c = omega (arith, awake_count-append cs c)

pub any_asleep-notify_caller :
    (cs : List Caller) (n : ℕ)
    → any_asleep_caller cs ≡ false
    → any_asleep_caller (notify_caller cs n) ≡ false
unfolding notify_caller
any_asleep-notify_caller [] n h = refl
any_asleep-notify_caller (Caller.asleep task ∷ cs) n h = absurd (cc)
any_asleep-notify_caller (Caller.checking task ∷ cs) n h = any_asleep-notify_caller cs n h
any_asleep-notify_caller (Caller.returned b ∷ cs) n h = any_asleep-notify_caller cs n h

pub awake_count-notify_caller :
    (cs : List Caller) (n : ℕ)
    → any_asleep_caller cs ≡ true
    → awake_count (notify_caller cs n) ≡ awake_count cs + 1
unfolding notify_caller
awake_count-notify_caller [] n h = absurd (cc)
awake_count-notify_caller (Caller.asleep task ∷ cs) zero h = omega arith
awake_count-notify_caller (Caller.asleep task ∷ cs) (suc n) h =
    elim (Bool-cases (any_asleep_caller cs)) [
      | inl more ↦ simp (more, notify_caller) (omega (arith, awake_count-notify_caller cs n more))
      | inr last ↦ simp (last, notify_caller) (omega arith)
    ]
awake_count-notify_caller (Caller.checking task ∷ cs) n h =
    omega (arith, awake_count-notify_caller cs n h)
awake_count-notify_caller (Caller.returned b ∷ cs) n h =
    omega (arith, awake_count-notify_caller cs n h)

pub any_asleep-notify_callers : (cs : List Caller) → any_asleep_caller (notify_callers cs) ≡ false
unfolding notify_callers
any_asleep-notify_callers [] = refl
any_asleep-notify_callers (Caller.asleep task ∷ cs) = any_asleep-notify_callers cs
any_asleep-notify_callers (Caller.checking task ∷ cs) = any_asleep-notify_callers cs
any_asleep-notify_callers (Caller.returned b ∷ cs) = any_asleep-notify_callers cs

-- A caller that is awake.
pub caller_at :
    (cs : List Caller)
    → 1 ≤ awake_count cs
    → (i : ℕ) × (task : ℕ) × (get_elem? cs i ≡ some (Caller.checking task))
caller_at [] h = absurd (omega (arith, h))
caller_at (Caller.checking task ∷ cs) h = (0, task, refl)
caller_at (Caller.asleep task ∷ cs) h =
    let (i, t, at) = caller_at cs (omega (arith, h)) in (suc i, t, at)
caller_at (Caller.returned b ∷ cs) h =
    let (i, t, at) = caller_at cs (omega (arith, h)) in (suc i, t, at)
