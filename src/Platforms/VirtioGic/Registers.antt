-- ===== src/Platforms/VirtioGic/Registers.antt =====
-- The registers of the interrupt distributor at the addresses that the architecture gives them.
use evisor.Prelude.{
  ==_ne, ==_refl, ap, arith, false, if◌then◌else◌, ltb, refl, sym, ℕ, ℕ_discrete, ◌*◌, ◌+◌, ◌-◌,
  ◌<◌, ◌==◌, ◌∙◌, ◌≡◌,
}
use mathlib.Core.Option.{some_inj}
use evisor.Platforms.VirtioGic.{
  Reg, cell, gicd_ctlr, gicd_typer, gicd_iidr, gicd_igroupr, gicd_isenabler, gicd_icenabler,
  gicd_ispendr, gicd_icpendr, gicd_isactiver, gicd_icactiver, gicd_ipriorityr, gicd_itargetsr,
  gicd_icfgr, gicd_nsacr, gicd_sgir, gicd_cpendsgir, gicd_spendsgir, words, offset, locate, read,
  write,
}
use evisor.Platforms.VirtioGic.Layout.{word}
use evisor.Platforms.VirtioGic.Access.{is_word, read-write}

-- The address of the first word of a register in the distributor of a GICv2.
abbrev pub base : Reg → ℕ
base gicd_ctlr = 0x000
base gicd_typer = 0x004
base gicd_iidr = 0x008
base gicd_igroupr = 0x080
base gicd_isenabler = 0x100
base gicd_icenabler = 0x180
base gicd_ispendr = 0x200
base gicd_icpendr = 0x280
base gicd_isactiver = 0x300
base gicd_icactiver = 0x380
base gicd_ipriorityr = 0x400
base gicd_itargetsr = 0x800
base gicd_icfgr = 0xc00
base gicd_nsacr = 0xe00
base gicd_sgir = 0xf00
base gicd_cpendsgir = 0xf10
base gicd_spendsgir = 0xf20

-- The address of the word `i` of a register.
abbrev pub address : Reg → ℕ → ℕ
address r i = base r + 4 * i

-- Not one of the four arrays whose index the code takes from the wrong bits.
abbrev pub Plain : Reg → Type 0
Plain gicd_igroupr = ⊥
Plain gicd_icenabler = ⊥
Plain gicd_icpendr = ⊥
Plain gicd_icactiver = ⊥
Plain _ = Unit {0}

-- The word of a register is found at its address.
locate-address : (r : Reg) (i : ℕ) → Plain r → i < words r → locate (address r i) ≡ cell r i
unfolding locate
locate-address gicd_igroupr i p h = absurd p
locate-address gicd_icenabler i p h = absurd p
locate-address gicd_icpendr i p h = absurd p
locate-address gicd_icactiver i p h = absurd p
locate-address gicd_ctlr i p h = ground arith
locate-address gicd_typer i p h = ground arith
locate-address gicd_iidr i p h = ground arith
locate-address _ i p h = ground arith

-- The address of a word of the struct.
address_of : ℕ → ℕ
address_of w =
    if ltb w 3
    then 4 * w
    else if ltb w 99
    then 0x100 + 4 * (w - 35)
    else if ltb w 163
    then 0x200 + 4 * (w - 99)
    else if ltb w 227
    then 0x300 + 4 * (w - 163)
    else if ltb w 482
    then 0x400 + 4 * (w - 227)
    else if ltb w 737
    then 0x800 + 4 * (w - 482)
    else if ltb w 801
    then 0xc00 + 4 * (w - 737)
    else if ltb w 865
    then 0xe00 + 4 * (w - 801)
    else if ltb w 866
    then 0xf00
    else 0xf10 + 4 * (w - 866)

address_of-offset :
    (r : Reg) (i : ℕ) → Plain r → i < words r → address_of (offset r + i) ≡ address r i
unfolding address_of
address_of-offset gicd_igroupr i p h = absurd p
address_of-offset gicd_icenabler i p h = absurd p
address_of-offset gicd_icpendr i p h = absurd p
address_of-offset gicd_icactiver i p h = absurd p
address_of-offset _ i p h = ground arith

-- Two registers that are not of the four arrays with a wrong index, at the addresses that the
-- architecture gives them: after a write of one word a read of that word returns the value written,
-- and a read of any other word what it returned before.
pub read-write_register :
    (regs : ℕ → ℕ) (r q : Reg) (i j value : ℕ)
    → Plain r
    → Plain q
    → i < words r
    → j < words q
    → read (write regs (address r i) value) (address q j)
      ≡ (if address q j == address r i then value else read regs (address q j))
read-write_register regs r q i j value p p' h h' =
    let here = ap word (locate-address r i p h) in
    let there = ap word (locate-address q j p' h') in
    let found =
      read-write regs (address r i) (address q j) (offset r + i) value here
      ∙ ap (λ w. if is_word w (offset r + i) then value else read regs (address q j)) there in
    elim (ℕ_discrete (address q j) (address r i)) [
      | yes e ↦
          let same : offset q + j ≡ offset r + i =
            some_inj.0 (sym there ∙ ap (λ a. word (locate a)) e ∙ here) in
          found ∙ rw (same, e, ==_refl, ==_refl (address r i)) refl
      | no n ↦
          let other : (offset r + i == offset q + j) ≡ false =
            ==_ne (offset r + i) (offset q + j) (λ e. n (
              sym (address_of-offset q j p' h')
              ∙ ap address_of (sym e)
              ∙ address_of-offset r i p h)) in
          found ∙ rw (other, ==_ne (address q j) (address r i) n) refl
    ]
