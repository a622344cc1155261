-- ===== src/Kernel/Vm/Lines.antt =====
-- src/kernel/sched/sched_virq.cc: the virtual interrupt lines of the guest that runs next.
use evisor.Prelude.{Bool, arith, false, true, ℕ, ◌&&◌, ◌≡◌, ◌≢◌, ==_ne, sym}
use evisor.Kernel.Task.{TaskStat}
use evisor.Kernel.Vm.{Cpu, set_irq_line, set_cpu_virtual_interrupt}

-- The flag of SetCpuVirtualInterrupt agrees with the bit of the register.
abbrev pub IsSynced : Cpu → Type 0
IsSynced c = c.hcr 7 ≡ c.is_asserted

-- What the lines are for a guest, `c'` after `c`.
pub record Lines (board irq fiq : Bool) (c c' : Cpu) : Type 0 where
  pub synced : IsSynced c'
  pub irq_line : board ≡ true → c'.hcr 7 ≡ irq
  pub irq_stays : board ≡ false → c'.hcr 7 ≡ c.hcr 7
  pub fiq_line : c'.hcr 6 ≡ (board && fiq)
  pub rest : (k : ℕ) → k ≢ 6 → k ≢ 7 → c'.hcr k ≡ c.hcr k

pub set_cpu_virtual_interrupt-Lines :
    (board : Bool) (stat : TaskStat) (c : Cpu)
    → IsSynced c
    → Lines board stat.irq_pending stat.fiq_pending c (set_cpu_virtual_interrupt board stat c).1
unfolding set_cpu_virtual_interrupt set_irq_line
set_cpu_virtual_interrupt-Lines board stat c h = record {
  synced = ground arith;
  irq_line = λ e. ground arith;
  irq_stays = λ e. ground arith;
  fiq_line = ground arith;
  rest =
      λ k six seven. ground (arith, ==_ne 6 k (λ e. six (sym e)), ==_ne 7 k (λ e. seven (sym e)));
}
