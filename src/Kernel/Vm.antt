-- ===== src/Kernel/Vm.antt =====
-- src/kernel/vm/vm.cc, with FlushConsole of src/kernel/sched/sched_task_console.cc and
-- SetCpuVirtualInterrupt of sched_virq.cc: what happens before a guest runs. The bits of HCR_EL2 are
-- a function from their positions. The tables and registers that RunVcpu loads are left out.
pub mod Lines
pub mod Console
pub mod Enter
mod Tests
use evisor.Prelude.{
  Bool, List, Option, [], false, get_elem?, if◌then◌else◌, map, none, not, set, some, suc, true,
  update, zero, ℕ, ◌%◌, ◌&&◌, ◌++◌, ◌==◌, ◌^◌, ◌∷◌,
}
use evisor.Prelude.Outcome.{Outcome, ok, fault, ◌>>=◌}
use evisor.Common.Queue
use evisor.Common.Queue.{Queue, max_size}
use evisor.Kernel.Task.{TaskStat, Tcb}
use evisor.Kernel.Sched.{Sched, get_current_task}
use evisor.Platforms.Board
use evisor.Platforms.Board.{Devices, is_irq_asserted}

-- The register, and `is_asserted` of `SetCpuVirtualInterrupt`.
pub record Cpu : Type 0 where
  pub hcr : ℕ → Bool
  pub is_asserted : Bool

-- `CpuEnableVIrqEl1`
abbrev pub enable_virq : (ℕ → Bool) → ℕ → Bool
enable_virq hcr = update hcr 7 true

-- `CpuDisableVirqEl1`
abbrev pub disable_virq : (ℕ → Bool) → ℕ → Bool
disable_virq hcr = update hcr 7 false

-- `CpuEnableVFiqEl1`
abbrev pub enable_vfiq : (ℕ → Bool) → ℕ → Bool
enable_vfiq hcr = update hcr 6 true

-- `CpuDisableVFiqEl1`
abbrev pub disable_vfiq : (ℕ → Bool) → ℕ → Bool
disable_vfiq hcr = update hcr 6 false

-- The first statement of `SetCpuVirtualInterrupt`; `board` tells whether the task has one.
unfoldable pub set_irq_line : Bool → TaskStat → Cpu → Cpu
set_irq_line board stat c =
    if not c.is_asserted && (board && is_irq_asserted stat)
    then record { hcr = enable_virq c.hcr; is_asserted = true }
    else if c.is_asserted && (board && not (is_irq_asserted stat))
    then record { hcr = disable_virq c.hcr; is_asserted = false }
    else c

-- `SetCpuVirtualInterrupt`
unfoldable pub set_cpu_virtual_interrupt : Bool → TaskStat → Cpu → TaskStat × Cpu
set_cpu_virtual_interrupt board stat c =
    let c' = set_irq_line board stat c in
    if board && stat.fiq_pending
    then (record stat { fiq_pending = false }, record c' { hcr = enable_vfiq c'.hcr })
    else (stat, record c' { hcr = disable_vfiq c'.hcr })

-- The loop of `FlushConsole`: the characters it prints, and the queue that it leaves; none where the
-- fuel runs out first.
unfoldable pub flush : ℕ → Queue → Option (List ℕ × Queue)
flush zero q = none
flush (suc fuel) q =
    let (word, q') = Queue.pop q in
    let rest = flush fuel q' in
    if Queue.is_empty q
    then some ([], q)
    else elim rest [ none ↦ none | some (printed, q'') ↦ some (word % 2 ^ 8 ∷ printed, q'') ]

-- The scheduler, the one board that `GetPlatformBoard` returns, with the console of its last `Init`,
-- in which slots the task has it, what was printed, and the CPU.
pub record Machine : Type 0 where
  pub sched : Sched
  pub board : Devices
  pub has_board : ℕ → Bool
  pub printed : List ℕ
  pub cpu : Cpu

-- `tsk->stat = stat` for the current task
abbrev pub set_stat : Sched → Tcb → TaskStat → Sched
set_stat s t stat = record s { tasks = set s.tasks s.cur (record t { stat = stat }) }

abbrev pub with_output : Devices → Queue → Devices
with_output d q = record d {
  uart = record d.uart { console = record d.uart.console { output = q } };
}

-- `FlushConsole` for the task in a slot; a task without a board is a null pointer.
unfoldable pub flush_task : ℕ → Machine → Outcome Machine
flush_task slot m =
    if m.has_board slot
    then elim (flush max_size m.board.uart.console.output) [
      | none ↦ fault
      | some (printed, q) ↦
          ok (record m { board = with_output m.board q; printed = m.printed ++ printed })
    ]
    else fault

-- Its call for the current task
unfoldable pub flush_console : Machine → Outcome Machine
unfolding flush_task
flush_console m = flush_task m.sched.cur m

-- `RunVcpu` for the current task
unfoldable pub run_vcpu : Tcb → Machine → Machine
run_vcpu t m =
    let (stat, cpu) = set_cpu_virtual_interrupt (m.has_board m.sched.cur) t.stat m.cpu in
    record m { sched = set_stat m.sched t stat; cpu = cpu }

-- `board->VmEnter`, if there is a board
abbrev pub board_enter : Machine → Tcb → Tcb
board_enter m t =
    if m.has_board m.sched.cur then record t { stat = Board.vm_enter m.board t.stat } else t

-- `VmEnter`
unfoldable pub vm_enter : Machine → Outcome Machine
vm_enter m = elim (get_current_task m.sched) [
  | none ↦ ok m
  | some t ↦
      let t' = board_enter m t in
      let m' = record m { sched = set_stat m.sched t' t'.stat } in
      if t'.pid == m.sched.console_forwarded_pid
      then (flush_console m' >>= λ m''. ok (run_vcpu t' m''))
      else ok (run_vcpu t' m')
]
