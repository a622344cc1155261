-- ===== src/Arch/Gic/Tests.antt =====
-- The theorem about RegisterIrq at the interrupt of the serial port of QEMU.
use evisor.Prelude.{arith, if◌then◌else◌, none, some, ℕ, ◌==◌, ◌≡◌}
use evisor.Prelude.Outcome.{ok}
use evisor.Arch.Gic.{Gic, Handler, register_irq}
use evisor.Arch.Gic.Enable.{Registered, register_irq_lem}

abbrev gic : Gic ℕ
gic = record {
  regs = record {
    d = record {
      gicd_ctlr = 3;
      gicd_isenabler = λ _. 4;
      gicd_ipriorityr = λ _. 0xa0a0a0a0;
      gicd_itargetsr = λ _. 0x02020202;
      gicd_sgir = 0;
    };
    c = record { gicc_ctlr = 3; gicc_pmr = 0xf0; gicc_iar = 33; gicc_eoir = 0 };
    h = record { gich_hcr = 1; gich_lr = λ _. 0 };
  };
  irq_handler = λ _. none;
}

abbrev handler : Handler ℕ
handler r s = ok (r, s)

register_irq_lem_example :
    (g' : Gic ℕ) × (register_irq 33 0 0x7f handler gic ≡ ok g')
    × Registered 33 0 0x7f gic.regs.d g'.regs.d
    × ((other : ℕ) → g'.irq_handler other ≡ (if 33 == other then some handler else none))
register_irq_lem_example =
    register_irq_lem 33 0 0x7f handler gic (omega arith) (omega arith) (omega arith)
