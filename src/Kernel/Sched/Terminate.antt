-- ===== src/Kernel/Sched/Terminate.antt =====
-- The `while (true)` of ScheduleInternal ends after at most two rounds, with a runnable task.
use evisor.Prelude.{
  All, All-get, All-map, Bool-cases, List, [], arith, false, get_elem?, inl, inr, map, refl, some,
  subst, suc, sym, true, zero, ℕ, ◌<◌, ◌∙◌, ◌∷◌, ◌≡◌, ◌⊎◌,
}
use evisor.Prelude.Int.{ℤ, pos, negsuc, pos_part, neg_part}
use evisor.Kernel.Task.{Tcb}
use evisor.Kernel.Sched.{is_running, select, refill, pick, is_zero}
use evisor.Kernel.Sched.Valid.{IsValidTask, refill-IsValidTask}
use evisor.Kernel.Sched.Select.{Selected, Bounded, select-Selected}

-- The slot of a running task with time left that no running task exceeds, or slot 0 where nothing
-- runs.
abbrev pub Chosen : ℕ → List Tcb → Type 0
Chosen next ts =
    ((t : Tcb) × (get_elem? ts next ≡ some t)
      × (is_running t.state ≡ true)
      × Bounded t.counter ts
      × (0 < pos_part t.counter))
    ⊎ ((next ≡ 0) × All (λ t. is_running t.state ≡ false) ts)

-- Counters are given out anew exactly when every running task has used its own up.
abbrev pub Refilled : List Tcb → List Tcb → Type 0
Refilled ts us = (us ≡ ts) ⊎ ((us ≡ map refill ts) × Bounded (pos 0) ts)

abbrev IsPositive : Tcb → Type 0
IsPositive t = 0 < pos_part t.counter

all_idle :
    (ts : List Tcb)
    → All IsValidTask ts
    → Bounded (negsuc 0) ts
    → All (λ t. is_running t.state ≡ false) ts
all_idle [] v b = tt
all_idle (t ∷ ts) v b = (
  elim (Bool-cases (is_running t.state)) [ inl e ↦ absurd (omega (arith, b.0 e, v.0)) | inr e ↦ e ],
  all_idle ts v.1 b.1,
)

Selected-Chosen :
    (ts : List Tcb) (c : ℤ) (n : ℕ)
    → All IsValidTask ts
    → is_zero c ≡ false
    → Selected (negsuc 0) 0 0 ts c n
    → Chosen n ts
Selected-Chosen ts c n v left s = elim s.found [
  | inl (e, z) ↦ inr (z, all_idle ts v (subst (λ k. Bounded k ts) e s.bounded))
  | inr (k, t, e, g, run, m) ↦ inl (
    t,
    subst (λ j. get_elem? ts j ≡ some t) (omega arith) g,
    run,
    subst (λ j. Bounded j ts) (sym m) s.bounded,
    has_time t.counter (rw m left) (All-get IsValidTask ts k t v g).counter_nonneg,
  )
]
  where
    has_time : (z : ℤ) → is_zero z ≡ false → neg_part z ≡ 0 → 0 < pos_part z
    has_time (pos zero) e h = cc
    has_time (pos (suc n)) e h = omega arith
    has_time (negsuc n) e h = absurd (omega arith)

pick_stop :
    (fuel : ℕ) (ts : List Tcb)
    → is_zero (select (negsuc 0) 0 0 ts).0 ≡ false
    → pick (suc fuel) ts ≡ some ((select (negsuc 0) 0 0 ts).1, ts)
unfolding pick
pick_stop fuel ts e = rw e

pick_again :
    (fuel : ℕ) (ts : List Tcb)
    → is_zero (select (negsuc 0) 0 0 ts).0 ≡ true
    → pick (suc fuel) ts ≡ pick fuel (map refill ts)
unfolding pick
pick_again fuel ts e = rw e

-- Where every counter is positive the loop cannot go round again.
not_zero :
    (ts : List Tcb) (c : ℤ) (n : ℕ)
    → All IsPositive ts
    → Selected (negsuc 0) 0 0 ts c n
    → is_zero c ≡ false
not_zero ts c n p s = elim s.found [
  | inl (e, z) ↦ rw e refl
  | inr (k, t, e, g, run, m) ↦ rw (← m) (positive t.counter (All-get IsPositive ts k t p g))
]
  where
    positive : (z : ℤ) → 0 < pos_part z → is_zero z ≡ false
    positive (pos zero) h = elim h [ ]
    positive (pos (suc n)) h = refl
    positive (negsuc n) h = refl

zero-Bounded : (c : ℤ) (ts : List Tcb) → is_zero c ≡ true → Bounded c ts → Bounded (pos 0) ts
zero-Bounded (pos zero) ts e b = b
zero-Bounded (pos (suc n)) ts e b = cc
zero-Bounded (negsuc n) ts e b = cc

-- Over valid tasks, with fuel for two rounds, the loop ends: the slot is that of a running task with the largest
-- counter (slot 0 if nothing runs), counters were refilled at most once and only when all running
-- tasks had none left, and every task stays valid.
pub pick_total :
    (fuel : ℕ) (ts : List Tcb)
    → All IsValidTask ts
    → (next : ℕ) × (us : List Tcb) × (pick (suc (suc fuel)) ts ≡ some (next, us))
      × Chosen next us
      × Refilled ts us
      × All IsValidTask us
pick_total fuel ts v = elim (Bool-cases (is_zero (select (negsuc 0) 0 0 ts).0)) [
  | inr e ↦ (_, ts, pick_stop (suc fuel) ts e, Selected-Chosen ts _ _ v e first, inl refl, v)
  | inl e ↦ (
    _,
    map refill ts,
    pick_again (suc fuel) ts e
        ∙ pick_stop fuel (map refill ts) (not_zero (map refill ts) _ _ positive second),
    Selected-Chosen (map refill ts) _ _ valid (not_zero (map refill ts) _ _ positive second) second,
    inr (refl, zero-Bounded _ ts e first.bounded),
    valid,
  )
]
  where
    first : Selected (negsuc 0) 0 0 ts (select (negsuc 0) 0 0 ts).0 (select (negsuc 0) 0 0 ts).1
    first = select-Selected (negsuc 0) 0 0 ts v

    valid : All IsValidTask (map refill ts)
    valid = All-map IsValidTask IsValidTask refill ts (λ t h. (refill-IsValidTask t h).0) v

    positive : All IsPositive (map refill ts)
    positive = All-map IsValidTask IsPositive refill ts (λ t h. (refill-IsValidTask t h).1) v

    second :
        Selected
          (negsuc 0)
          0
          0
          (map refill ts)
          (select (negsuc 0) 0 0 (map refill ts)).0
          (select (negsuc 0) 0 0 (map refill ts)).1
    second = select-Selected (negsuc 0) 0 0 (map refill ts) valid
