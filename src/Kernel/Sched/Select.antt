-- ===== src/Kernel/Sched/Select.antt =====
-- The first loop of ScheduleInternal chooses a running task with the largest counter.
use evisor.Prelude.{
  All, Bool-cases, List, [], arith, false, get_elem?, inl, inr, refl, some, suc, sym, true, ℕ, ◌&&◌,
  ◌+◌, ◌∷◌, ◌≡◌, ◌⊎◌,
}
use evisor.Prelude.Int.{ℤ, ltb_ℤ, ◌≤ℤ◌}
use evisor.Kernel.Task.{Tcb}
use evisor.Kernel.Sched.{is_running, select}
use evisor.Kernel.Sched.Valid.{IsValidTask, int32_lem}

-- No running task of the list has a counter above `c`.
abbrev pub Bounded : ℤ → List Tcb → Type 0
Bounded c = All (λ t. is_running t.state ≡ true → t.counter ≤ℤ c)

-- What the loop has found: the counter and slot that it started from, or those of a running task.
pub record Selected (c : ℤ) (next i : ℕ) (ts : List Tcb) (c' : ℤ) (next' : ℕ) : Type 0 where
  pub above : c ≤ℤ c'
  pub bounded : Bounded c' ts
  pub found :
      ((c' ≡ c) × (next' ≡ next))
      ⊎ ((k : ℕ) × (t : Tcb) × (next' ≡ i + k)
          × (get_elem? ts k ≡ some t)
          × (is_running t.state ≡ true)
          × (t.counter ≡ c'))

select-better :
    (c : ℤ) (next i : ℕ) (t : Tcb) (ts : List Tcb)
    → (is_running t.state && ltb_ℤ c t.counter) ≡ true
    → IsValidTask t
    → select c next i (t ∷ ts) ≡ select t.counter i (suc i) ts
unfolding select
select-better c next i t ts e v =
    rw (e, select) (rw (int32_lem t.counter v.counter_nonneg (omega (arith, v))) refl)

select-worse :
    (c : ℤ) (next i : ℕ) (t : Tcb) (ts : List Tcb)
    → (is_running t.state && ltb_ℤ c t.counter) ≡ false
    → select c next i (t ∷ ts) ≡ select c next (suc i) ts
unfolding select
select-worse c next i t ts e = rw (e, select)

-- What the rest of the list finds, seen from the list with its head.
skip :
    (c : ℤ) (next i : ℕ) (t : Tcb) (ts : List Tcb) (r : ℤ × ℕ)
    → (is_running t.state && ltb_ℤ c t.counter) ≡ false
    → Selected c next (suc i) ts r.0 r.1
    → Selected c next i (t ∷ ts) r.0 r.1
skip c next i t ts r e s = record {
  above = s.above;
  bounded = (λ run. ground (arith, s.above), s.bounded);
  found = elim s.found [
    | inl same ↦ inl same
    | inr (k, u, n, g, run, m) ↦ inr (suc k, u, omega arith, g, run, m)
  ];
}

take_head :
    (c : ℤ) (next i : ℕ) (t : Tcb) (ts : List Tcb) (r : ℤ × ℕ)
    → (is_running t.state && ltb_ℤ c t.counter) ≡ true
    → Selected t.counter i (suc i) ts r.0 r.1
    → Selected c next i (t ∷ ts) r.0 r.1
take_head c next i t ts r e s = record {
  above = ground (arith, s.above);
  bounded = (λ run. s.above, s.bounded);
  found = elim s.found [
    | inl (m, n) ↦ inr (0, t, omega arith, refl, ground arith, sym m)
    | inr (k, u, n, g, run, m) ↦ inr (suc k, u, omega arith, g, run, m)
  ];
}

-- Over valid tasks the loop ends with the largest counter of the running tasks, if that is above `c`, and with the
-- slot of a task that has it.
pub select-Selected :
    (c : ℤ) (next i : ℕ) (ts : List Tcb)
    → All IsValidTask ts
    → let (c', next') = select c next i ts in Selected c next i ts c' next'
select-Selected c next i [] v =
    unfold select in record { above = omega arith; bounded = tt; found = inl (refl, refl) }
select-Selected c next i (t ∷ ts) v = elim (Bool-cases (is_running t.state && ltb_ℤ c t.counter)) [
  | inl e ↦
      rw (select-better c next i t ts e v.0)
        (take_head c next i t ts _ e (select-Selected t.counter i (suc i) ts v.1))
  | inr e ↦
      rw (select-worse c next i t ts e)
        (skip c next i t ts _ e (select-Selected c next (suc i) ts v.1))
]
