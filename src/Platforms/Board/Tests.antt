-- ===== src/Platforms/Board/Tests.antt =====
-- The theorems about the boards at a concrete guest.
use evisor.Prelude.{arith, false, refl, some, true, u32_mod, ◌%◌, ◌*◌, ◌^◌, ◌≡◌}
use evisor.Prelude.Outcome.{ok, panic}
use evisor.Common.Queue
use evisor.Common.Queue.Refine
use evisor.Common.Queue.Refine.{contents}
use evisor.Kernel.Task.{TaskStat}
use evisor.Arch.Trap.{Guest}
use evisor.Platforms.VirtioGic
use evisor.Platforms.Board.{qemu, bcm2711, Devices, mmio_read, handle_register_access}
use evisor.Platforms.Board.Emulation.{IsEmulated, load_lem, gic_store-load, store_unexpected}

abbrev stat : TaskStat
stat = record {
  irq_pending = false;
  fiq_pending = false;
  wfx_traps = 0;
  hvc_traps = 0;
  sysreg_traps = 0;
  page_faults = 0;
  mmios = 0;
}

abbrev guest : Guest
guest = record {
  vcpu = record { regs = λ i. i * 3; sp = 0x1000; pc = 0x80; pstate = 0 };
  sysregs = λ _. 7;
  stat = stat;
}

-- A queue of one word.
abbrev one_word : Queue.Queue
one_word = record { head = 0; tail = 1; buff = λ _. 65 }

abbrev devices : Devices
devices = record {
  uart = record { regs = λ _. 0; console = record { input = one_word; output = one_word } };
  gic = λ _. 0;
}

one_word-IsValid : Refine.IsValid one_word
one_word-IsValid = record { head_in = omega arith; tail_in = omega arith }

load_lem_run :
    (g : Guest) × (handle_register_access qemu guest devices 0x09000018 4 true
      ≡ ok (g, (mmio_read qemu devices 0x09000018).1))
    × IsEmulated guest g 4
    × (g.vcpu.regs 4 ≡ (mmio_read qemu devices 0x09000018).0)
load_lem_run = load_lem qemu guest devices 0x09000018 4 (omega arith)

priority_word : VirtioGic.Layout.word (VirtioGic.locate (0xff841404 % 2 ^ 12)) ≡ some 228
unfolding VirtioGic.locate
priority_word = refl

gic_store-load_example :
    (g : Guest) × (d : Devices) × (handle_register_access bcm2711 guest devices 0xff841404 4 false
      ≡ ok (g, d))
    × IsEmulated guest g 4
    × ((mmio_read bcm2711 d 0xff841404).0 ≡ 12 % u32_mod)
    × (d.uart ≡ devices.uart)
gic_store-load_example =
    gic_store-load bcm2711 guest devices 0xff841404 4 228 (omega arith) refl priority_word

store_unexpected_run : handle_register_access bcm2711 guest devices 0x1000 4 false ≡ panic
store_unexpected_run = store_unexpected bcm2711 guest devices 0x1000 4 (omega arith) (omega arith)
