-- ===== src/Platforms/Board/Emulation.antt =====
-- src/mm/kmm_trap.cc, src/platforms/board.h and the two boards: what a guest's access does.
use evisor.Prelude.{
  ==_iff, ==_ne, ==_refl, Bool, List, [], ap, arith, false, not, refl, some, sym, true, u32_mod,
  u64_mod, update, ℕ, ◌%◌, ◌+◌, ◌<◌, ◌==◌, ◌^◌, ◌↔◌, ◌∙◌, ◌∷◌, ◌≡◌, ◌≢◌,
}
use evisor.Prelude.Outcome.{Outcome, ok, panic}
use evisor.Common.Queue
use evisor.Common.Queue.Refine.{IsValid, contents, is_empty-nil, pop-cons}
use evisor.Kernel.Task.{VCpuContext, TaskStat}
use evisor.Arch.Trap.{Guest, get_reg, set_reg}
use evisor.Platforms.VirtioGic
use evisor.Platforms.VirtioGic.Access.{read-write}
use evisor.Platforms.Board.{
  Board, qemu, bcm2711, bcm2711_nuttx, uart_base, gic_base, Devices, base_addr, mmio_read,
  mmio_write, vm_enter, is_irq_asserted, finish, handle_register_access,
}

empty-contents :
    (q : Queue.Queue) (xs : List ℕ)
    → IsValid q
    → Queue.is_empty q ≡ true
    → contents q ≡ xs
    → xs ≡ []
empty-contents q [] v e c = refl
empty-contents q (x ∷ xs) v e c = absurd (clash (sym (pop-cons q x xs v c).0 ∙ e))
  where
    clash : false ≡ true → ⊥
    clash p = cc

not-false : (b : Bool) → not b ≡ false → b ≡ true
not-false true e = refl
not-false false e = cc

-- Where the input queue is valid, the interrupt of a guest that is entered is asserted exactly while its console has input.
pub vm_enter-is_irq_asserted_iff :
    (d : Devices) (stat : TaskStat)
    → IsValid d.uart.console.input
    → (is_irq_asserted (vm_enter d stat) ≡ false) ↔ (contents d.uart.console.input ≡ [])
unfolding vm_enter
vm_enter-is_irq_asserted_iff d stat v = (
  λ e. empty-contents d.uart.console.input (contents d.uart.console.input) v (not-false _ e) refl,
  λ e. rw (is_empty-nil d.uart.console.input v e) refl,
)

-- Whatever an access of a guest to its devices, it goes on past the instruction, and its system
-- registers and its other general registers stay; a store changes no general register.
pub record IsEmulated (g g' : Guest) (srt : ℕ) : Type 0 where
  pub pc : g'.vcpu.pc ≡ (g.vcpu.pc + 4) % u64_mod
  pub mmios : g'.stat.mmios ≡ (g.stat.mmios + 1) % u64_mod
  pub sysregs : g'.sysregs ≡ g.sysregs
  pub others : (j : ℕ) → j ≢ srt → g'.vcpu.regs j ≡ g.vcpu.regs j

-- A load of any address into a register other than the zero register succeeds: it puts what the
-- device reads into the register, passes the instruction, and leaves the other registers.
pub load_lem :
    (b : Board) (g : Guest) (d : Devices) (addr srt : ℕ)
    → srt < 31
    → (g' : Guest) × (handle_register_access b g d addr srt true ≡ ok (g', (mmio_read b d addr).1))
      × IsEmulated g g' srt
      × (g'.vcpu.regs srt ≡ (mmio_read b d addr).0)
unfolding handle_register_access set_reg
load_lem b g d addr srt small =
    let x = (mmio_read b d addr).0 in
    let other : (srt == 31) ≡ false = ==_ne srt 31 (omega arith) in
    let shape : set_reg g.vcpu srt x ≡ record g.vcpu { regs = update g.vcpu.regs srt x } =
      rw other refl in
    (
      finish (record g { vcpu = set_reg g.vcpu srt x }),
      refl,
      record {
        pc = ap (λ (v : VCpuContext). (v.pc + 4) % u64_mod) shape;
        mmios = refl;
        sysregs = refl;
        others = λ j n.
            ap (λ (v : VCpuContext). v.regs j) shape ∙ rw (==_ne srt j (λ q. n (sym q))) refl;
      },
      ap (λ (v : VCpuContext). v.regs srt) shape ∙ rw (==_refl srt) refl,
    )

bases : (b : Board) → (gic_base b == uart_base b) ≡ false
bases qemu = refl
bases bcm2711 = refl
bases bcm2711_nuttx = refl

-- A store of a register other than the zero register to a word of the interrupt controller succeeds, and a load of the same address then reads
-- the lower 32 bits of the register stored.
pub gic_store-load :
    (b : Board) (g : Guest) (d : Devices) (addr srt w : ℕ)
    → srt < 31
    → base_addr addr ≡ gic_base b
    → VirtioGic.Layout.word (VirtioGic.locate (addr % 2 ^ 12)) ≡ some w
    → (g' : Guest) × (d' : Devices) × (handle_register_access b g d addr srt false ≡ ok (g', d'))
      × IsEmulated g g' srt
      × ((mmio_read b d' addr).0 ≡ g.vcpu.regs srt % u32_mod)
      × (d'.uart ≡ d.uart)
unfolding handle_register_access get_reg mmio_write mmio_read
gic_store-load b g d addr srt w small here e =
    let other : (srt == 31) ≡ false = ==_ne srt 31 (omega arith) in
    let gic : (base_addr addr == gic_base b) ≡ true =
      (==_iff (base_addr addr) (gic_base b)).1 here in
    let uart : (base_addr addr == uart_base b) ≡ false = rw here (bases b) in
    let x = g.vcpu.regs srt % u32_mod in
    let back = read-write d.gic (addr % 2 ^ 12) (addr % 2 ^ 12) w x e in
    (
      finish g,
      record d { gic = VirtioGic.write d.gic (addr % 2 ^ 12) x },
      rw (uart, gic, other) refl,
      record { pc = refl; mmios = refl; sysregs = refl; others = λ j n. refl },
      rw (uart, gic) (back ∙ rw (e, ==_refl w) refl),
      refl,
    )

-- A store to an address of no device stops the hypervisor on the Raspberry Pi; under QEMU it
-- changes nothing but the pc and the count of accesses.
pub store_unexpected :
    (b : Board) (g : Guest) (d : Devices) (addr srt : ℕ)
    → base_addr addr ≢ uart_base b
    → base_addr addr ≢ gic_base b
    → handle_register_access b g d addr srt false ≡ elim b as (λ _. Outcome (Guest × Devices)) [
      | qemu ↦ ok (finish g, d)
      | bcm2711 ↦ panic
      | bcm2711_nuttx ↦ panic
    ]
unfolding handle_register_access mmio_write
store_unexpected qemu g d addr srt u c = rw (==_ne _ _ u, ==_ne _ _ c) refl
store_unexpected bcm2711 g d addr srt u c = rw (==_ne _ _ u, ==_ne _ _ c) refl
store_unexpected bcm2711_nuttx g d addr srt u c = rw (==_ne _ _ u, ==_ne _ _ c) refl
