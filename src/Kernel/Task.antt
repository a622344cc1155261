-- ===== src/Kernel/Task.antt =====
-- src/kernel/task/task.h and Sched::VCpuContext of src/kernel/sched/sched.h: what is kept of a
-- guest. The name, the host registers saved by the context switch and the board pointer are not
-- part of the record.
use evisor.Prelude.{ℕ, Bool}
use evisor.Prelude.Int.{ℤ}

pub data TaskState : Type 0 where
  running waitting zombie dead : TaskState

pub record MmContext : Type 0 where
  pub page_table : ℕ
  pub pages : ℕ

pub record TaskStat : Type 0 where
  pub irq_pending : Bool
  pub fiq_pending : Bool
  pub wfx_traps : ℕ
  pub hvc_traps : ℕ
  pub sysreg_traps : ℕ
  pub page_faults : ℕ
  pub mmios : ℕ

-- `regs` are x0 to x30.
pub record VCpuContext : Type 0 where
  pub regs : ℕ → ℕ
  pub sp : ℕ
  pub pc : ℕ
  pub pstate : ℕ

-- `Tcb`, with the vCPU context that `GetVCpuRegs` finds in the same page.
pub record Tcb : Type 0 where
  pub pid : ℕ
  pub priority : ℤ
  pub counter : ℤ
  pub state : TaskState
  pub mm : MmContext
  pub stat : TaskStat
  pub vcpu : VCpuContext
