-- ===== src/Kernel/Sched/Tick.antt =====
-- The timer interrupt, Schedule and ExitTask: each ends, keeps the tasks valid, and switches to
-- the task that the selection names.
use evisor.Prelude.Int.{pos_part, ◌-ℤ◌}
use evisor.Prelude.{
  List, Option, ap, arith, get_elem?-some, if◌then◌else◌, inl, inr, length, length-map, none, refl,
  some, suc, ℕ, ◌<◌, ◌==◌, ◌∙◌, ◌≡◌, get_elem?, get_elem?-lt, All-get, All-set, Bool-cases,
  length-set, true, false, ◌⊎◌, ◌≤◌,
}
use evisor.Kernel.Task.{Tcb}
use evisor.Kernel.Sched.{
  Sched, Switch, refill, switch_task_to, schedule_internal, set_counter, get_elem?, schedule, ◌-ℤ◌,
  sched_timer_handler, ℤ, pos, Bool-cases, length-set, ltb_ℤ,
}
use evisor.Kernel.Sched.Valid.{IsValid, IsValidTask}
use evisor.Kernel.Sched.Terminate.{Chosen, Refilled, pick_total}

-- What ScheduleInternal leaves behind: the chosen task is current, and a context switch was asked
-- for exactly if it is another one than before.
pub record Scheduled (s s' : Sched) (sw : Option Switch) : Type 0 where
  pub valid : IsValid s'
  pub chosen : Chosen s'.cur s'.tasks
  pub refilled : Refilled s.tasks s'.tasks
  pub switched :
      sw ≡ (if s.cur == s'.cur then none else some (record { from = s.cur; next = s'.cur }))
  pub console : s'.console_forwarded_pid ≡ s.console_forwarded_pid

Chosen-lt : (n : ℕ) (ts : List Tcb) → 0 < length ts → Chosen n ts → n < length ts
Chosen-lt n ts h (inl (t, g, r, b, left)) = get_elem?-some ts n t g
Chosen-lt n ts h (inr (z, a)) = omega arith

length-Refilled : (ts us : List Tcb) → Refilled ts us → length us ≡ length ts
length-Refilled ts us (inl e) = ap length e
length-Refilled ts us (inr (e, b)) = ap length e ∙ length-map refill ts

switch_lem :
    (s : Sched) (next : ℕ)
    → switch_task_to s next ≡ (
      record s { cur = next },
      if s.cur == next then none else some (record { from = s.cur; next = next }),
    )
unfolding switch_task_to
switch_lem s next = ground arith

-- With fuel for two rounds `ScheduleInternal` ends as described.
pub schedule_internal_total :
    (fuel : ℕ) (s : Sched)
    → IsValid s
    → (s' : Sched) × (sw : Option Switch) × (schedule_internal (suc (suc fuel)) s ≡ some (s', sw))
      × Scheduled s s' sw
unfolding schedule_internal
schedule_internal_total fuel s v =
    let (next, us, e, c, r, a) = pick_total fuel s.tasks v.tasks in
    (
      record s { tasks = us; cur = next },
      _,
      rw (e, schedule_internal) (ap some (switch_lem (record s { tasks = us }) next)),
      record {
        valid = record {
          tasks = a;
          current = Chosen-lt next us (omega (arith, v, length-Refilled s.tasks us r)) c;
          slots = omega (arith, v, length-Refilled s.tasks us r);
        };
        chosen = c;
        refilled = r;
        switched = refl;
        console = refl;
      },
    )

set_counter-IsValid :
    (s : Sched) (t : Tcb) (z : ℤ)
    → IsValid s
    → IsValidTask (record t { counter = z })
    → IsValid (set_counter s t z)
set_counter-IsValid s t z v w = record {
  tasks = All-set IsValidTask s.tasks s.cur (record t { counter = z }) w v.tasks;
  current = omega (arith, v, length-set s.tasks s.cur (record t { counter = z }));
  slots = omega (arith, v, length-set s.tasks s.cur (record t { counter = z }));
}

current_task : (s : Sched) → IsValid s → (t : Tcb) × (get_elem? s.tasks s.cur ≡ some t)
current_task s v = get_elem?-lt s.tasks s.cur v.current

-- In a valid state, with fuel for two rounds, `Schedule` returns: the current task's slice is given
-- up, and a running task with the largest counter is selected.
pub schedule_total :
    (fuel : ℕ) (s : Sched)
    → IsValid s
    → (t : Tcb) × (s' : Sched) × (sw : Option Switch) × (get_elem? s.tasks s.cur ≡ some t)
      × (schedule (suc (suc fuel)) s ≡ some (s', sw))
      × Scheduled (set_counter s t (pos 0)) s' sw
unfolding schedule
schedule_total fuel s v =
    let (t, g) = current_task s v in
    let w = All-get IsValidTask s.tasks s.cur t v.tasks g in
    let (s', sw, e, r) =
      schedule_internal_total fuel (set_counter s t (pos 0))
        (set_counter-IsValid s t (pos 0) v (ground arith)) in
    (t, s', sw, g, rw (g, schedule) e, r)

-- What a timer interrupt does to the scheduler.
abbrev pub Ticked : Sched → Tcb → Sched → Option Switch → Type 0
Ticked s t s' sw =
    ((1 < pos_part t.counter)
      × (s' ≡ set_counter s t (t.counter -ℤ pos 1))
      × (sw ≡ none)
      × IsValid s')
    ⊎ ((pos_part t.counter ≤ 1) × Scheduled (set_counter s t (pos 0)) s' sw)

left_more :
    (t : Tcb) → IsValidTask t → ltb_ℤ (pos 0) (t.counter -ℤ pos 1) ≡ true → 1 < pos_part t.counter
unfolding ◌-ℤ◌
left_more t w e = ground arith

left_none :
    (t : Tcb) → IsValidTask t → ltb_ℤ (pos 0) (t.counter -ℤ pos 1) ≡ false → pos_part t.counter ≤ 1
unfolding ◌-ℤ◌
left_none t w e = ground arith

less-IsValidTask :
    (t : Tcb)
    → IsValidTask t
    → ltb_ℤ (pos 0) (t.counter -ℤ pos 1) ≡ true
    → IsValidTask (record t { counter = t.counter -ℤ pos 1 })
unfolding ◌-ℤ◌
less-IsValidTask t w e = ground arith

-- In a valid state, with fuel for two rounds, the timer interrupt returns: while the current task has more than one tick left it only
-- loses one; otherwise its counter becomes 0 and the scheduler selects.
pub sched_timer_handler_total :
    (fuel : ℕ) (s : Sched)
    → IsValid s
    → (t : Tcb) × (s' : Sched) × (sw : Option Switch) × (get_elem? s.tasks s.cur ≡ some t)
      × (sched_timer_handler (suc (suc fuel)) s ≡ some (s', sw))
      × Ticked s t s' sw
unfolding sched_timer_handler
sched_timer_handler_total fuel s v =
    let (t, g) = current_task s v in
    let w = All-get IsValidTask s.tasks s.cur t v.tasks g in
    let (s', sw, e, r) =
      schedule_internal_total fuel (set_counter s t (pos 0))
        (set_counter-IsValid s t (pos 0) v (ground arith)) in
    elim (Bool-cases (ltb_ℤ (pos 0) (t.counter -ℤ pos 1))) [
      | inl more ↦ (
        t,
        set_counter s t (t.counter -ℤ pos 1),
        none,
        g,
        rw (g, sched_timer_handler) (rw more refl),
        inl (
          left_more t w more,
          refl,
          refl,
          set_counter-IsValid s t (t.counter -ℤ pos 1) v (less-IsValidTask t w more),
        ),
      )
      | inr done ↦
          (t, s', sw, g, rw (g, sched_timer_handler) (rw done e), inr (left_none t w done, r))
    ]
