-- ===== src/Arch/Trap.antt =====
-- src/arch/arm64/irq/trap.cc: the decoding of synchronous traps and the emulation of accesses to
-- system registers. The guest is the vCPU context, the registers and the counters of a task.
pub mod Access
pub mod Decode
pub mod System
mod Tests
use evisor.Prelude.{
  ==_iff, ==_ne, ==_refl, All, All-append, All-get, All-map, All-set, Bool, Bool-cases, List,
  Option, Option-cases, [], ap, append-nil, append_assoc, ap₂, arith, bit_and, bit_or, dec_le,
  dec_lt, false, fun_ext, get_elem?, get_elem?-lt, get_elem?-set_ne, get_elem?-set_self,
  get_elem?-some, if◌then◌else◌, inl, inr, leb, leb→le, length, length-append, length-map,
  length-replicate, length-set, ltb, ltb→lt, lt→ltb, map, none, not, refl, replicate, set, some,
  subst, suc, sym, take, true, u16_mod, u32_mod, u64_mod, u8_mod, update, zero, ℕ, ℕ_discrete, ◌%◌,
  ◌&&◌, ◌*◌, ◌++◌, ◌+◌, ◌-◌, ◌/◌, ◌<◌, ◌==◌, ◌^◌, ◌||◌, ◌↔◌, ◌∙◌, ◌∷◌, ◌≡◌, ◌≢◌, ◌≤◌, ◌⊎◌,
}
use evisor.Prelude.Outcome.{Outcome, ok, panic, fault, ◌>>=◌}
use evisor.Kernel.Task.{VCpuContext, TaskStat}
use evisor.Arch.Sysregs.{
  Sysreg, number, mpidr_el1, actlr_el1, id_pfr0_el1, id_pfr1_el1, id_mmfr0_el1, id_mmfr1_el1,
  id_mmfr2_el1, id_mmfr3_el1, id_isar0_el1, id_isar1_el1, id_isar2_el1, id_isar3_el1, id_isar4_el1,
  id_isar5_el1, mvfr0_el1, mvfr1_el1, mvfr2_el1, id_aa64pfr0_el1, id_aa64pfr1_el1, id_aa64dfr0_el1,
  id_aa64dfr1_el1, id_aa64isar0_el1, id_aa64isar1_el1, id_aa64mmfr0_el1, id_aa64mmfr1_el1,
  id_aa64afr0_el1, id_aa64afr1_el1, ctr_el0, ccsidr_el1, clidr_el1, csselr_el1, aidr_el1,
  revidr_el1,
}

pub record Guest : Type 0 where
  pub vcpu : VCpuContext
  pub sysregs : Sysreg → ℕ
  pub stat : TaskStat

-- `regs[rt]`: the array has 31 registers, and `sp` is what follows it.
unfoldable pub get_reg : VCpuContext → ℕ → ℕ
get_reg v rt = if rt == 31 then v.sp else v.regs rt

unfoldable pub set_reg : VCpuContext → ℕ → ℕ → VCpuContext
set_reg v rt x = if rt == 31 then record v { sp = x } else record v { regs = update v.regs rt x }

-- `IncrementCurrentTaskPc(4)`
abbrev pub next_pc : VCpuContext → VCpuContext
next_pc v = record v { pc = (v.pc + 4) % u64_mod }

abbrev pub set_sysreg : (Sysreg → ℕ) → Sysreg → ℕ → Sysreg → ℕ
set_sysreg f r x s = if number r == number s then x else f s

-- A use of the macros `MSR` and `MRS`: a register and op1, CRn, CRm, op2.
pub data Entry : Type 0 where
  entry : Sysreg → ℕ → ℕ → ℕ → ℕ → Entry

abbrev pub writes : List Entry
writes = entry actlr_el1 0 1 0 1 ∷ entry csselr_el1 1 0 0 0 ∷ []

abbrev pub reads : List Entry
reads =
    entry actlr_el1 0 1 0 1
    ∷ entry id_pfr0_el1 0 0 1 0
    ∷ entry id_pfr1_el1 0 0 1 1
    ∷ entry id_mmfr0_el1 0 0 1 4
    ∷ entry id_mmfr1_el1 0 0 1 5
    ∷ entry id_mmfr2_el1 0 0 1 6
    ∷ entry id_mmfr3_el1 0 0 1 7
    ∷ entry id_isar0_el1 0 0 2 0
    ∷ entry id_isar1_el1 0 0 2 1
    ∷ entry id_isar2_el1 0 0 2 2
    ∷ entry id_isar3_el1 0 0 2 3
    ∷ entry id_isar4_el1 0 0 2 4
    ∷ entry id_isar5_el1 0 0 2 5
    ∷ entry mvfr0_el1 0 0 3 0
    ∷ entry mvfr1_el1 0 0 3 1
    ∷ entry mvfr2_el1 0 0 3 2
    ∷ entry id_aa64pfr0_el1 0 0 4 0
    ∷ entry id_aa64pfr1_el1 0 0 4 1
    ∷ entry id_aa64dfr0_el1 0 0 5 0
    ∷ entry id_aa64dfr1_el1 0 0 5 1
    ∷ entry id_aa64isar0_el1 0 0 6 0
    ∷ entry id_aa64isar1_el1 0 0 6 1
    ∷ entry id_aa64mmfr0_el1 0 0 7 0
    ∷ entry id_aa64mmfr1_el1 0 0 7 1
    ∷ entry mpidr_el1 0 0 7 3
    ∷ entry id_aa64afr0_el1 0 0 5 4
    ∷ entry id_aa64afr1_el1 0 0 5 5
    ∷ entry revidr_el1 0 0 0 6
    ∷ entry ccsidr_el1 1 0 0 0
    ∷ entry clidr_el1 1 0 0 1
    ∷ entry aidr_el1 1 0 0 7
    ∷ entry csselr_el1 2 0 0 0
    ∷ entry ctr_el0 3 0 0 1
    ∷ []

-- The first use of a macro whose numbers are those of the instruction.
unfoldable pub find : List Entry → ℕ → ℕ → ℕ → ℕ → Option Sysreg
find [] op1 crn crm op2 = none
find (entry r a b c d ∷ es) op1 crn crm op2 =
    let rest = find es op1 crn crm op2 in
    if op1 == a && crn == b && crm == c && op2 == d then some r else rest

abbrev pub msr : Guest → ℕ → Option Sysreg → Option Guest
msr g rt none = none
msr g rt (some r) =
    some (record g { sysregs = set_sysreg g.sysregs r (get_reg g.vcpu rt); vcpu = next_pc g.vcpu })

abbrev pub mrs : Guest → ℕ → Option Sysreg → Option Guest
mrs g rt none = none
mrs g rt (some r) = some (record g { vcpu = next_pc (set_reg g.vcpu rt (g.sysregs r)) })

-- `TrapMcrMrcInstructions`: none where it returns false.
unfoldable pub trap_mcr_mrc : Guest → ℕ → ℕ → ℕ → ℕ → ℕ → ℕ → Option Guest
trap_mcr_mrc g opc2 opc1 crn rt crm dir =
    if dir == 0
    then msr g rt (find writes opc1 crn crm opc2)
    else mrs g rt (find reads opc1 crn crm opc2)

-- The fields of the syndrome of an access, as `HandleTrapSystem` takes them apart.
pub record Syndrome : Type 0 where
  pub cond : ℕ
  pub opc2 : ℕ
  pub opc1 : ℕ
  pub crn : ℕ
  pub rt : ℕ
  pub crm : ℕ
  pub dir : ℕ

unfoldable pub syndrome : ℕ → Syndrome
syndrome iss = record {
  cond = iss / 2 ^ 20 % 2 ^ 4;
  opc2 = iss / 2 ^ 17 % 2 ^ 3;
  opc1 = iss / 2 ^ 14 % 2 ^ 3;
  crn = iss / 2 ^ 10 % 2 ^ 4;
  rt = iss / 2 ^ 5 % 2 ^ 5;
  crm = iss / 2 % 2 ^ 4;
  dir = iss % 2;
}

abbrev pub count_sysreg : Guest → Guest
count_sysreg g = record g {
  stat = record g.stat { sysreg_traps = (g.stat.sysreg_traps + 1) % u64_mod };
}

abbrev pub handled : Option Guest → Outcome Guest
handled none = panic
handled (some g) = ok g

-- `HandleTrapSystem`
unfoldable pub handle_trap_system : Guest → ℕ → Outcome Guest
handle_trap_system g iss =
    let s = syndrome iss in
    let counted = count_sysreg g in
    if s.cond == 2 || s.cond == 3
    then handled (trap_mcr_mrc counted s.opc2 s.opc1 s.crn s.rt s.crm s.dir)
    else panic

-- What `TrapHandleLowerElAarch64Sync` and `HandleTrapMemAbort` call, with the arguments they take
-- from the syndrome.
pub data Handler : Type 0 where
  wfx not_implemented memory_abort_failed uncaught : Handler
  system : ℕ → Handler
  memory_access_fault : ℕ → Handler
  register_access : ℕ → ℕ → Bool → Handler

-- `HandleTrapMemAbort`
unfoldable pub handle_trap_mem_abort : ℕ → ℕ → Handler
handle_trap_mem_abort addr esr =
    if esr % 2 ^ 6 / 4 == 1
    then memory_access_fault addr
    else if esr % 2 ^ 6 / 4 == 3
    then register_access addr (esr / 2 ^ 16 % 2 ^ 5) (esr / 2 ^ 6 % 2 == 0)
    else memory_abort_failed

-- `TrapHandleLowerElAarch64Sync`
unfoldable pub handle_sync : ℕ → ℕ → Handler
handle_sync esr far =
    let ec = esr / 2 ^ 26 % 2 ^ 6 in
    if ec == 0b000001
    then wfx
    else if ec == 0b000111
    then not_implemented
    else if ec == 0b010110
    then not_implemented
    else if ec == 0b011000
    then system (esr % 2 ^ 28)
    else if ec == 0b011001
    then not_implemented
    else if ec == 0b100100
    then handle_trap_mem_abort far esr
    else uncaught
