-- ===== src/Arch/Sysregs.antt =====
-- src/arch/arm64/cpu_regs.h: the system registers that are kept of a guest.
use evisor.Prelude.{ℕ}

-- `VCpuSysregs`; the code addresses its fields by name.
pub data Sysreg : Type 0 where
  sctlr_el1 ttbr0_el1 ttbr1_el1 tcr_el1 esr_el1 far_el1 afsr0_el1 afsr1_el1 mair_el1 : Sysreg
  amair_el1 contextidr_el1 cpacr_el1 elr_el1 fpcr fpsr midr_el1 mpidr_el1 par_el1 sp_el0 : Sysreg
  sp_el1 spsr_el1 tpidr_el0 tpidr_el1 tpidrro_el0 vbar_el1 actlr_el1 id_pfr0_el1 : Sysreg
  id_pfr1_el1 id_mmfr0_el1 id_mmfr1_el1 id_mmfr2_el1 id_mmfr3_el1 id_isar0_el1 id_isar1_el1 : Sysreg
  id_isar2_el1 id_isar3_el1 id_isar4_el1 id_isar5_el1 mvfr0_el1 mvfr1_el1 mvfr2_el1 : Sysreg
  id_aa64pfr0_el1 id_aa64pfr1_el1 id_aa64dfr0_el1 id_aa64dfr1_el1 id_aa64isar0_el1 : Sysreg
  id_aa64isar1_el1 id_aa64mmfr0_el1 id_aa64mmfr1_el1 id_aa64afr0_el1 id_aa64afr1_el1 : Sysreg
  ctr_el0 ccsidr_el1 clidr_el1 csselr_el1 aidr_el1 revidr_el1 cntkctl_el1 cntp_ctl_el0 : Sysreg
  cntp_cval_el0 cntp_tval_el0 cntv_ctl_el0 cntv_cval_el0 cntv_tval_el0 : Sysreg

-- The position of a register in the structure.
abbrev pub number : Sysreg → ℕ
number sctlr_el1 = 0
number ttbr0_el1 = 1
number ttbr1_el1 = 2
number tcr_el1 = 3
number esr_el1 = 4
number far_el1 = 5
number afsr0_el1 = 6
number afsr1_el1 = 7
number mair_el1 = 8
number amair_el1 = 9
number contextidr_el1 = 10
number cpacr_el1 = 11
number elr_el1 = 12
number fpcr = 13
number fpsr = 14
number midr_el1 = 15
number mpidr_el1 = 16
number par_el1 = 17
number sp_el0 = 18
number sp_el1 = 19
number spsr_el1 = 20
number tpidr_el0 = 21
number tpidr_el1 = 22
number tpidrro_el0 = 23
number vbar_el1 = 24
number actlr_el1 = 25
number id_pfr0_el1 = 26
number id_pfr1_el1 = 27
number id_mmfr0_el1 = 28
number id_mmfr1_el1 = 29
number id_mmfr2_el1 = 30
number id_mmfr3_el1 = 31
number id_isar0_el1 = 32
number id_isar1_el1 = 33
number id_isar2_el1 = 34
number id_isar3_el1 = 35
number id_isar4_el1 = 36
number id_isar5_el1 = 37
number mvfr0_el1 = 38
number mvfr1_el1 = 39
number mvfr2_el1 = 40
number id_aa64pfr0_el1 = 41
number id_aa64pfr1_el1 = 42
number id_aa64dfr0_el1 = 43
number id_aa64dfr1_el1 = 44
number id_aa64isar0_el1 = 45
number id_aa64isar1_el1 = 46
number id_aa64mmfr0_el1 = 47
number id_aa64mmfr1_el1 = 48
number id_aa64afr0_el1 = 49
number id_aa64afr1_el1 = 50
number ctr_el0 = 51
number ccsidr_el1 = 52
number clidr_el1 = 53
number csselr_el1 = 54
number aidr_el1 = 55
number revidr_el1 = 56
number cntkctl_el1 = 57
number cntp_ctl_el0 = 58
number cntp_cval_el0 = 59
number cntp_tval_el0 = 60
number cntv_ctl_el0 = 61
number cntv_cval_el0 = 62
number cntv_tval_el0 = 63
