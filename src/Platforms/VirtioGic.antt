-- ===== src/Platforms/VirtioGic.antt =====
-- src/platforms/virtio/virtio_gic.h and virtio_gic.cc: the interrupt distributor that a guest sees.
-- `Regs` is a struct of 32-bit words without gaps; it is modelled word by word, and an index that
-- lies behind its array falls on the member that the struct has there, as the compiled code does it,
-- though the language leaves it undefined. Layout says which addresses have such an index.
pub mod Layout
pub mod Access
pub mod Registers
mod Tests
use evisor.Prelude.{
  ==_iff, ==_ne, ==_refl, All, All-append, All-get, All-map, All-set, Bool, Bool-cases, List,
  Option, Option-cases, [], ap, append-nil, append_assoc, ap₂, arith, bit_and, bit_or, dec_le,
  dec_lt, false, fun_ext, get_elem?, get_elem?-lt, get_elem?-set_ne, get_elem?-set_self,
  get_elem?-some, if◌then◌else◌, inl, inr, leb, leb→le, length, length-append, length-map,
  length-replicate, length-set, ltb, ltb→lt, lt→ltb, map, none, not, refl, replicate, set, some,
  subst, suc, sym, take, true, u16_mod, u32_mod, u64_mod, u8_mod, update, zero, ℕ, ℕ_discrete, ◌%◌,
  ◌&&◌, ◌*◌, ◌++◌, ◌+◌, ◌-◌, ◌/◌, ◌<◌, ◌==◌, ◌^◌, ◌||◌, ◌↔◌, ◌∙◌, ◌∷◌, ◌≡◌, ◌≢◌, ◌≤◌, ◌⊎◌,
}

pub data Reg : Type 0 where
  gicd_ctlr gicd_typer gicd_iidr gicd_igroupr gicd_isenabler gicd_icenabler : Reg
  gicd_ispendr gicd_icpendr gicd_isactiver gicd_icactiver gicd_ipriorityr gicd_itargetsr : Reg
  gicd_icfgr gicd_nsacr gicd_sgir gicd_cpendsgir gicd_spendsgir : Reg

-- The number of words of each member.
abbrev pub words : Reg → ℕ
words gicd_ctlr = 1
words gicd_typer = 1
words gicd_iidr = 1
words gicd_igroupr = 32
words gicd_isenabler = 32
words gicd_icenabler = 32
words gicd_ispendr = 32
words gicd_icpendr = 32
words gicd_isactiver = 32
words gicd_icactiver = 32
words gicd_ipriorityr = 255
words gicd_itargetsr = 255
words gicd_icfgr = 64
words gicd_nsacr = 64
words gicd_sgir = 1
words gicd_cpendsgir = 4
words gicd_spendsgir = 4

-- The word at which each member begins: the sum of those before it.
abbrev pub offset : Reg → ℕ
offset gicd_ctlr = 0
offset gicd_typer = 1
offset gicd_iidr = 2
offset gicd_igroupr = 3
offset gicd_isenabler = 35
offset gicd_icenabler = 67
offset gicd_ispendr = 99
offset gicd_icpendr = 131
offset gicd_isactiver = 163
offset gicd_icactiver = 195
offset gicd_ipriorityr = 227
offset gicd_itargetsr = 482
offset gicd_icfgr = 737
offset gicd_nsacr = 801
offset gicd_sgir = 865
offset gicd_cpendsgir = 866
offset gicd_spendsgir = 870

-- What an address stands for: a word of a member, or none.
pub data Target : Type 0 where
  cell : Reg → ℕ → Target
  nothing : Target

-- `(addr & 0xff) >> 2` and the like
abbrev pub index : ℕ → ℕ → ℕ
index addr bits = addr % 2 ^ bits / 4

-- The chain of tests of `Read`; what it does at the address 0xfe8 is in `read_target`.
unfoldable pub locate : ℕ → Target
locate addr =
    if addr == 0x000
    then cell gicd_ctlr 0
    else if addr == 0x004
    then cell gicd_typer 0
    else if addr == 0x008
    then cell gicd_iidr 0
    else if leb 0x80 addr && ltb addr 0x100
    then cell gicd_igroupr (index addr 8)
    else if ltb addr 0x180
    then cell gicd_isenabler (index addr 8)
    else if ltb addr 0x200
    then cell gicd_icenabler (index addr 8)
    else if ltb addr 0x280
    then cell gicd_ispendr (index addr 8)
    else if ltb addr 0x300
    then cell gicd_icpendr (index addr 8)
    else if ltb addr 0x380
    then cell gicd_isactiver (index addr 8)
    else if ltb addr 0x400
    then cell gicd_icactiver (index addr 8)
    else if ltb addr 0x7fc
    then cell gicd_ipriorityr (index addr 10)
    else if leb 0x800 addr && ltb addr 0xbfc
    then cell gicd_itargetsr (index addr 10)
    else if leb 0xc00 addr && ltb addr 0xd00
    then cell gicd_icfgr (index addr 8)
    else if leb 0xe00 addr && ltb addr 0xf00
    then cell gicd_nsacr (index addr 8)
    else if addr == 0xf00
    then cell gicd_sgir 0
    else if leb 0xf10 addr && ltb addr 0xf20
    then cell gicd_cpendsgir (index addr 4)
    else if leb 0xf20 addr && ltb addr 0xf30
    then cell gicd_spendsgir (index addr 4)
    else nothing

-- The chain of tests of `Write`; the loop of the ISENABLER branch only writes to the log.
unfoldable pub locate_write : ℕ → Target
locate_write addr =
    if addr == 0x000
    then cell gicd_ctlr 0
    else if addr == 0x004
    then cell gicd_typer 0
    else if addr == 0x008
    then cell gicd_iidr 0
    else if leb 0x80 addr && ltb addr 0x100
    then cell gicd_igroupr (index addr 8)
    else if ltb addr 0x180
    then cell gicd_isenabler (index addr 8)
    else if ltb addr 0x200
    then cell gicd_icenabler (index addr 8)
    else if ltb addr 0x280
    then cell gicd_ispendr (index addr 8)
    else if ltb addr 0x300
    then cell gicd_icpendr (index addr 8)
    else if ltb addr 0x380
    then cell gicd_isactiver (index addr 8)
    else if ltb addr 0x400
    then cell gicd_icactiver (index addr 8)
    else if ltb addr 0x7fc
    then cell gicd_ipriorityr (index addr 10)
    else if leb 0x800 addr && ltb addr 0xbfc
    then cell gicd_itargetsr (index addr 10)
    else if leb 0xc00 addr && ltb addr 0xd00
    then cell gicd_icfgr (index addr 8)
    else if leb 0xe00 addr && ltb addr 0xf00
    then cell gicd_nsacr (index addr 8)
    else if addr == 0xf00
    then cell gicd_sgir 0
    else if leb 0xf10 addr && ltb addr 0xf20
    then cell gicd_cpendsgir (index addr 4)
    else if leb 0xf20 addr && ltb addr 0xf30
    then cell gicd_spendsgir (index addr 4)
    else nothing

-- `regs_` as it is constructed: every word is 0.
pub initial : ℕ → ℕ
initial i = 0

read_target : Target → (ℕ → ℕ) → ℕ → ℕ
read_target (cell r i) regs addr = regs (offset r + i)
read_target nothing regs addr = if addr == 0xfe8 then 0x20 else 0

pub read : (ℕ → ℕ) → ℕ → ℕ
unfolding read_target
read regs addr = read_target (locate addr) regs addr

write_target : Target → (ℕ → ℕ) → ℕ → ℕ → ℕ
write_target (cell r i) regs value = update regs (offset r + i) value
write_target nothing regs value = regs

pub write : (ℕ → ℕ) → ℕ → ℕ → ℕ → ℕ
unfolding write_target
write regs addr value = write_target (locate_write addr) regs value
