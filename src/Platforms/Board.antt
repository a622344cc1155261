-- ===== src/Platforms/Board.antt =====
-- src/platforms/board.h, qemu/board_qemu.cc, bcm2711/board_bcm2711.cc and src/mm/kmm_trap.cc:
-- accesses of a guest to its devices, each of which has a page of addresses. The mapping
-- of the pages (`Init`) and the addresses in the log are left out.
pub mod Emulation
pub mod Init
mod Tests
use evisor.Prelude.{
  ==_iff, ==_ne, ==_refl, All, All-append, All-get, All-map, All-set, Bool, Bool-cases, List,
  Option, Option-cases, [], ap, append-nil, append_assoc, ap₂, arith, bit_and, bit_or, dec_le,
  dec_lt, false, fun_ext, get_elem?, get_elem?-lt, get_elem?-set_ne, get_elem?-set_self,
  get_elem?-some, if◌then◌else◌, inl, inr, leb, leb→le, length, length-append, length-map,
  length-replicate, length-set, ltb, ltb→lt, lt→ltb, map, none, not, refl, replicate, set, some,
  subst, suc, sym, take, true, u16_mod, u32_mod, u64_mod, u8_mod, update, zero, ℕ, ℕ_discrete, ◌%◌,
  ◌&&◌, ◌*◌, ◌++◌, ◌+◌, ◌-◌, ◌/◌, ◌<◌, ◌==◌, ◌^◌, ◌||◌, ◌↔◌, ◌∙◌, ◌∷◌, ◌≡◌, ◌≢◌, ◌≤◌, ◌⊎◌,
}
use evisor.Prelude.Outcome.{Outcome, ok, panic, fault, ◌>>=◌}
use evisor.Common.Queue
use evisor.Kernel.Task.{VCpuContext, TaskStat}
use evisor.Arch.Trap.{Guest, get_reg, set_reg, next_pc}
use evisor.Platforms.VirtioUart
use evisor.Platforms.VirtioGic

-- The boards; that of the Raspberry Pi 4 has other addresses under TEST_GUEST_IS_NUTTX.
pub data Board : Type 0 where
  qemu bcm2711 bcm2711_nuttx : Board

-- `UART0_BASE`
abbrev pub uart_base : Board → ℕ
uart_base qemu = 0x09000000
uart_base bcm2711 = 0xfe201000
uart_base bcm2711_nuttx = 0x09000000

-- `GIC_V2_DISTRIBUTOR_BASE`
abbrev pub gic_base : Board → ℕ
gic_base qemu = 0x08000000
gic_base bcm2711 = 0xff841000
gic_base bcm2711_nuttx = 0x08000000

pub record Devices : Type 0 where
  pub uart : VirtioUart.State
  pub gic : ℕ → ℕ

-- `addr & 0xFFFFF000`, in a `uint32_t`
abbrev pub base_addr : ℕ → ℕ
base_addr addr = addr % u32_mod - addr % 2 ^ 12

-- `MmioRead`
unfoldable pub mmio_read : Board → Devices → ℕ → ℕ × Devices
mmio_read b d addr =
    let (value, uart) = VirtioUart.read d.uart (addr % 2 ^ 12) in
    if base_addr addr == uart_base b
    then (value, record d { uart = uart })
    else if base_addr addr == gic_base b
    then (VirtioGic.read d.gic (addr % 2 ^ 12), d)
    else (0, d)

-- The end of `MmioWrite` for an address of no device.
abbrev pub unexpected_write : Board → Devices → Outcome Devices
unexpected_write qemu d = ok d
unexpected_write bcm2711 d = panic
unexpected_write bcm2711_nuttx d = panic

-- `MmioWrite`; the value is cut to the 32 bits of the devices.
unfoldable pub mmio_write : Board → Devices → ℕ → ℕ → Outcome Devices
mmio_write b d addr value =
    if base_addr addr == uart_base b
    then ok (record d { uart = VirtioUart.write d.uart (addr % 2 ^ 12) (value % u32_mod) })
    else if base_addr addr == gic_base b
    then ok (record d { gic = VirtioGic.write d.gic (addr % 2 ^ 12) (value % u32_mod) })
    else unexpected_write b d

-- `VmEnter`
unfoldable pub vm_enter : Devices → TaskStat → TaskStat
vm_enter d stat = record stat { irq_pending = not (Queue.is_empty d.uart.console.input) }

-- `IsIrqAsserted`
abbrev pub is_irq_asserted : TaskStat → Bool
is_irq_asserted stat = stat.irq_pending

-- The end of `HandleMmTrapRegisterAccess`
abbrev pub finish : Guest → Guest
finish g = record g {
  vcpu = next_pc g.vcpu;
  stat = record g.stat { mmios = (g.stat.mmios + 1) % u64_mod };
}

-- `HandleMmTrapRegisterAccess` for a task with a board.
unfoldable pub handle_register_access :
    Board → Guest → Devices → ℕ → ℕ → Bool → Outcome (Guest × Devices)
handle_register_access b g d addr srt true =
    let (value, d') = mmio_read b d addr in
    ok (finish (record g { vcpu = set_reg g.vcpu srt value }), d')
handle_register_access b g d addr srt false =
    mmio_write b d addr (get_reg g.vcpu srt) >>= λ d'. ok (finish g, d')
