-- ===== src/Arch/Gic.antt =====
-- src/arch/arm64/irq/gic_v2.cc, gic_v2.h, gic.cc and gic.h: the interrupt controller of the machine.
-- Its registers hold what was written to them, also GICD_ITARGETSR of the interrupts below 32, which
-- a GICv2 does not let the code write; those that the code only prints are left out, and
-- the printing. The state that the handlers change is a parameter.
pub mod Enable
mod Tests
use evisor.Prelude.{
  Option, bit_and, bit_or, if◌then◌else◌, ltb, none, not, some, u32_mod, update, ℕ, ◌%◌, ◌*◌, ◌+◌,
  ◌-◌, ◌/◌, ◌^◌,
}
use evisor.Prelude.Outcome.{Outcome, ok, panic, fault, ◌>>=◌}

-- `GicDistributorRegs`
pub record Distributor : Type 0 where
  pub gicd_ctlr : ℕ
  pub gicd_isenabler : ℕ → ℕ
  pub gicd_ipriorityr : ℕ → ℕ
  pub gicd_itargetsr : ℕ → ℕ
  pub gicd_sgir : ℕ

-- `GicCpuInterfaceRegs`
pub record CpuInterface : Type 0 where
  pub gicc_ctlr : ℕ
  pub gicc_pmr : ℕ
  pub gicc_iar : ℕ
  pub gicc_eoir : ℕ

-- `GicVcpuInterfaceControlRegs`
pub record VcpuInterfaceControl : Type 0 where
  pub gich_hcr : ℕ
  pub gich_lr : ℕ → ℕ

-- `GicRegs`
pub record Regs : Type 0 where
  pub d : Distributor
  pub c : CpuInterface
  pub h : VcpuInterfaceControl

-- `IrqHandler`: what a handler does to the registers and to the rest of the state.
abbrev pub Handler : Type 0 → Type 0
Handler S = Regs → S → Outcome (Regs × S)

-- The class, with its table of 1024 handlers.
pub record Gic (S : Type 0) : Type 0 where
  pub regs : Regs
  pub irq_handler : ℕ → Option (Handler S)

-- `Init`
abbrev pub init : Regs → Regs
init r = record {
  d = record r.d { gicd_ctlr = 3 };
  c = record r.c { gicc_pmr = 0xf0; gicc_ctlr = 3 };
  h = record r.h { gich_hcr = 1 };
}

-- `regs_.D->GICD_ISENABLER[id / 32] | (1 << (id % 32))`
abbrev pub enabled : ℕ → ℕ → ℕ
enabled word id = bit_or word (1 * 2 ^ (id % 32))

-- `regs_.D->GICD_IPRIORITYR[id / 4] & ~((uint32_t)priority << ((id % 4) * 8))`
abbrev pub prioritised : ℕ → ℕ → ℕ → ℕ
prioritised word id priority = bit_and word (u32_mod - 1 - priority * 2 ^ (id % 4 * 8))

-- The three statements on `itargetsr_tmp`
abbrev pub targeted : ℕ → ℕ → ℕ → ℕ
targeted word id target_processor =
    bit_or (bit_and word (u32_mod - 1 - 0xff * 2 ^ (id % 4 * 8)))
      (2 ^ target_processor * 2 ^ (id % 4 * 8) % u32_mod)

-- `RegisterIrq`: an interrupt beyond the arrays, or a shift by 32 or more, is undefined.
unfoldable pub register_irq : {S : Type 0} → ℕ → ℕ → ℕ → Handler S → Gic S → Outcome (Gic S)
register_irq id target_processor priority handler g =
    let d = g.regs.d in
    if ltb id 1020
    then if ltb target_processor 32
      then ok (record {
        regs = record g.regs {
          d = record d {
            gicd_isenabler =
                update d.gicd_isenabler (id / 32) (enabled (d.gicd_isenabler (id / 32)) id);
            gicd_ipriorityr =
                update d.gicd_ipriorityr (id / 4)
                  (prioritised (d.gicd_ipriorityr (id / 4)) id priority);
            gicd_itargetsr =
                update d.gicd_itargetsr (id / 4)
                  (targeted (d.gicd_itargetsr (id / 4)) id target_processor);
          };
        };
        irq_handler = update g.irq_handler id (some handler);
      })
      else fault
    else fault

-- `GICC_EOIR = iar`
abbrev pub end_of : ℕ → Regs → Regs
end_of iar r = record r { c = record r.c { gicc_eoir = iar } }

-- `HandleIrq`
unfoldable pub handle_irq : {S : Type 0} → Gic S → S → Outcome (Regs × S)
handle_irq g s =
    let iar = g.regs.c.gicc_iar % 2 ^ 12 in
    elim (g.irq_handler (iar % 2 ^ 10)) [
      | none ↦ ok (end_of iar g.regs, s)
      | some handler ↦ handler g.regs s >>= λ (r, s'). ok (end_of iar r, s')
    ]

-- `NotifyVirqHardware`
abbrev pub notify_virq_hardware : ℕ → Regs → Regs
notify_virq_hardware intid r = record r {
  h = record r.h {
    gich_lr = update r.h.gich_lr 0 (bit_or (bit_or 0x90000000 (intid * 2 ^ 10)) intid);
  };
}

-- `NotifyIrqSoftware`
abbrev pub notify_irq_software : ℕ → ℕ → Regs → Regs
notify_irq_software sgi_id cpu_id r = record r {
  d = record r.d { gicd_sgir = bit_or (sgi_id % 2 ^ 4) (cpu_id % 2 ^ 8 * 2 ^ 16) };
}

-- `CatchUnexpectedIrqs`: the name of the error is read from an array of 16.
abbrev pub catch_unexpected_irqs : ℕ → Outcome (Unit {0})
catch_unexpected_irqs type = if ltb type 16 then panic else fault
