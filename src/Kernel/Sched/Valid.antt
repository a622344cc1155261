-- ===== src/Kernel/Sched/Valid.antt =====
-- What the scheduler keeps true of every task: priorities and counters never leave the range in
-- which the `int` of the selection loop holds a counter exactly.
use evisor.Prelude.{refl, All, arith, length, ◌*◌, ◌<◌, ◌^◌, ◌≡◌, ◌≤◌}
use evisor.Prelude.Int.{ℤ, pos, negsuc, ◌+ℤ◌, pos_part, neg_part}
use evisor.Kernel.Task.{Tcb, VCpuContext}
use evisor.Kernel.Sched.{int32, refill, Sched, init, init_task}

pub record IsValidTask (t : Tcb) : Type 0 where
  pub counter_nonneg : neg_part t.counter ≡ 0
  pub counter_bounded : pos_part t.counter ≤ 2 * pos_part t.priority
  pub priority_pos : 0 < pos_part t.priority
  pub priority_small : pos_part t.priority ≤ 2 ^ 29

pub record IsValid (s : Sched) : Type 0 where
  pub tasks : All IsValidTask s.tasks
  pub current : s.cur < length s.tasks
  pub slots : length s.tasks ≤ 8

pub int32_lem : (z : ℤ) → neg_part z ≡ 0 → pos_part z < 2 ^ 31 → int32 z ≡ z
unfolding int32
int32_lem (pos n) h k = ground arith
int32_lem (negsuc n) h k = absurd (omega arith)

-- Halving and adding the priority keeps a counter below twice the priority, and makes it positive.
pub refill-IsValidTask :
    (t : Tcb) → IsValidTask t → IsValidTask (refill t) × (0 < pos_part (refill t).counter)
unfolding refill ◌+ℤ◌
refill-IsValidTask t v = ground arith

init_task-IsValidTask : (vcpu : VCpuContext) → IsValidTask (init_task vcpu)
init_task-IsValidTask vcpu = record {
  counter_nonneg = refl;
  counter_bounded = omega arith;
  priority_pos = omega arith;
  priority_small = omega arith;
}

-- The scheduler is valid from `Init` on.
pub init-IsValid : (vcpu : VCpuContext) → IsValid (init vcpu)
init-IsValid vcpu = record {
  tasks = (init_task-IsValidTask vcpu, tt);
  current = omega arith;
  slots = omega arith;
}
