-- ===== src/Kernel/Sched/Tests.antt =====
-- The theorems about the scheduler at concrete tables of tasks.
use evisor.Prelude.{
  All, List, Option, [], arith, false, get_elem?, refl, some, ℕ, ◌<◌, ◌∷◌, ◌≡◌, ◌≢◌, ◌≤◌, ◌⊎◌,
}
use evisor.Prelude.Int.{pos, negsuc}
use evisor.Kernel.Task.{Tcb, VCpuContext}
use evisor.Kernel.Sched.{
  Sched, Switch, init, init_task, is_running, select, pick, set_counter, schedule,
  sched_timer_handler, add_task, exit_task, get_task,
}
use evisor.Kernel.Sched.Valid.{IsValid, IsValidTask, init-IsValid}
use evisor.Kernel.Sched.Select.{Selected, select-Selected}
use evisor.Kernel.Sched.Terminate.{Chosen, Refilled, pick_total}
use evisor.Kernel.Sched.Tick.{Scheduled, Ticked, schedule_total, sched_timer_handler_total}
use evisor.Kernel.Sched.Fair.{Arrives, ticks_reach}
use evisor.Kernel.Sched.Table.{add_task-get_task, exit_task_leaves}

abbrev vcpu : VCpuContext
vcpu = record { regs = λ _. 0; sp = 0; pc = 0; pstate = 0 }

-- A guest with priority 2 and a counter.
abbrev guest : ℕ → Tcb
guest left = record (init_task vcpu) { pid = 1; priority = pos 2; counter = pos left }

guest-IsValidTask : (left : ℕ) → left ≤ 4 → IsValidTask (guest left)
guest-IsValidTask left h = record {
  counter_nonneg = refl;
  counter_bounded = omega arith;
  priority_pos = omega arith;
  priority_small = omega arith;
}

-- The initial task and two guests, the second of which is current.
abbrev tasks : List Tcb
tasks = init_task vcpu ∷ guest 3 ∷ guest 1 ∷ []

abbrev sched : Sched
sched = record { tasks = tasks; cur = 2; console_forwarded_pid = 0 }

tasks-IsValidTask : All IsValidTask tasks
tasks-IsValidTask = (
  (init-IsValid vcpu).tasks.0,
  (guest-IsValidTask 3 (omega arith), (guest-IsValidTask 1 (omega arith), tt)),
)

sched-IsValid : IsValid sched
sched-IsValid = record { tasks = tasks-IsValidTask; current = omega arith; slots = omega arith }

pick_total_run :
    (next : ℕ) × (us : List Tcb) × (pick 2 tasks ≡ some (next, us))
    × Chosen next us
    × Refilled tasks us
    × All IsValidTask us
pick_total_run = pick_total 0 tasks tasks-IsValidTask

schedule_total_run :
    (t : Tcb) × (s' : Sched) × (sw : Option Switch) × (get_elem? tasks 2 ≡ some t)
    × (schedule 2 sched ≡ some (s', sw))
    × Scheduled (set_counter sched t (pos 0)) s' sw
schedule_total_run = schedule_total 0 sched sched-IsValid

sched_timer_handler_total_example :
    (t : Tcb) × (s' : Sched) × (sw : Option Switch) × (get_elem? tasks 2 ≡ some t)
    × (sched_timer_handler 2 sched ≡ some (s', sw))
    × Ticked sched t s' sw
sched_timer_handler_total_example = sched_timer_handler_total 0 sched sched-IsValid

exit_task_leaves_example :
    (s' : Sched) × (sw : Option Switch) × (exit_task 2 sched 2 ≡ some (s', sw))
    × IsValid s'
    × ((s'.cur ≢ 2) ⊎ All (λ t. is_running t.state ≡ false) s'.tasks)
exit_task_leaves_example = exit_task_leaves 0 sched 2 sched-IsValid (omega arith)

add_task-get_task_example :
    (s' : Sched) × (add_task (init vcpu) (guest 0) ≡ some (1, s'))
    × (get_task s' 1 ≡ some (record (guest 0) { pid = 1 }))
    × ((p : ℕ) → p < 1 → get_task s' p ≡ get_task (init vcpu) p)
    × (s'.cur ≡ 0)
    × IsValid s'
add_task-get_task_example =
    add_task-get_task (init vcpu) (guest 0) (init-IsValid vcpu) (guest-IsValidTask 0 (omega arith))
      (omega arith)

select-Selected_run :
    let (c', next') = select (negsuc 0) 0 0 tasks in Selected (negsuc 0) 0 0 tasks c' next'
select-Selected_run = select-Selected (negsuc 0) 0 0 tasks tasks-IsValidTask

-- The initial task, whose time is used up.
ticks_reach_example : Arrives sched 0
ticks_reach_example = ticks_reach sched 0 (init_task vcpu) sched-IsValid refl refl
