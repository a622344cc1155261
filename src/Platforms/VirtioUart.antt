-- ===== src/Platforms/VirtioUart.antt =====
-- src/platforms/virtio/virtio_pl011_uart.h and virtio_pl011_uart.cc: the PL011 serial port that a
-- guest sees, and Board::Console of src/platforms/board.h. The console is that of the current task.
pub mod Ranges
pub mod Guest
mod Tests
use evisor.Prelude.{
  ==_iff, ==_ne, ==_refl, All, All-append, All-get, All-map, All-set, Bool, Bool-cases, List,
  Option, Option-cases, [], ap, append-nil, append_assoc, ap₂, arith, bit_and, bit_or, dec_le,
  dec_lt, false, fun_ext, get_elem?, get_elem?-lt, get_elem?-set_ne, get_elem?-set_self,
  get_elem?-some, if◌then◌else◌, inl, inr, leb, leb→le, length, length-append, length-map,
  length-replicate, length-set, ltb, ltb→lt, lt→ltb, map, none, not, refl, replicate, set, some,
  subst, suc, sym, take, true, u16_mod, u32_mod, u64_mod, u8_mod, update, zero, ℕ, ℕ_discrete, ◌%◌,
  ◌&&◌, ◌*◌, ◌++◌, ◌+◌, ◌-◌, ◌/◌, ◌<◌, ◌==◌, ◌^◌, ◌||◌, ◌↔◌, ◌∙◌, ◌∷◌, ◌≡◌, ◌≢◌, ◌≤◌, ◌⊎◌,
}
use evisor.Common.Queue
use evisor.Common.Queue.{Queue}

pub record Console : Type 0 where
  pub input : Queue
  pub output : Queue

pub data Reg : Type 0 where
  uartdr uartrsr uartfr uartilpr uartibrd uartfbrd uartlcr_h : Reg
  uartcr uartifls uartimsc uartris uartmis uarticr uartdmacr : Reg

-- `Regs`
abbrev pub Regs : Type 0
Regs = Reg → ℕ

-- `regs_` as it is constructed.
pub initial : Regs
initial uartdr = 0
initial uartrsr = 0
initial uartfr = 0x90
initial uartilpr = 0
initial uartibrd = 0
initial uartfbrd = 0
initial uartlcr_h = 0
initial uartcr = 0x300
initial uartifls = 0x12
initial uartimsc = 0
initial uartris = 0
initial uartmis = 0
initial uarticr = 0
initial uartdmacr = 0

-- The position of a register in the struct.
abbrev pub number : Reg → ℕ
number uartdr = 0
number uartrsr = 1
number uartfr = 2
number uartilpr = 3
number uartibrd = 4
number uartfbrd = 5
number uartlcr_h = 6
number uartcr = 7
number uartifls = 8
number uartimsc = 9
number uartris = 10
number uartmis = 11
number uarticr = 12
number uartdmacr = 13

-- `regs_.r = value`
abbrev pub assign : Regs → Reg → ℕ → Regs
assign regs r value q = if number r == number q then value else regs q

-- The `case` labels that `Read` and `Write` share.
pub decode : ℕ → Option Reg
decode addr =
    if addr == 0x000
    then some uartdr
    else if addr == 0x004
    then some uartrsr
    else if addr == 0x018
    then some uartfr
    else if addr == 0x020
    then some uartilpr
    else if addr == 0x024
    then some uartibrd
    else if addr == 0x028
    then some uartfbrd
    else if addr == 0x02c
    then some uartlcr_h
    else if addr == 0x030
    then some uartcr
    else if addr == 0x034
    then some uartifls
    else if addr == 0x038
    then some uartimsc
    else if addr == 0x03c
    then some uartris
    else if addr == 0x040
    then some uartmis
    else if addr == 0x044
    then some uarticr
    else if addr == 0x048
    then some uartdmacr
    else none

-- The identification registers, which only `Read` knows; 0 for any other address.
pub identification : ℕ → ℕ
identification addr =
    if addr == 0xfe0
    then 0x11
    else if addr == 0xfe4
    then 0x10
    else if addr == 0xfe8
    then 0x34
    else if addr == 0xfec
    then 0x0
    else if addr == 0xff0
    then 0xd
    else if addr == 0xff4
    then 0xf0
    else if addr == 0xff8
    then 0x05
    else if addr == 0xffc
    then 0xb1
    else 0

pub record State : Type 0 where
  pub regs : Regs
  pub console : Console

-- `case 0x018`: with input waiting, a byte of it goes to the data register and the receive-empty
-- flag is cleared.
pub poll : State → State
poll s =
    if Queue.is_empty s.console.input
    then s
    else let (word, input) = Queue.pop s.console.input in
      let dr = bit_or (bit_and (s.regs uartdr) 0xf00) (word % 2 ^ 8) in
      let fr = bit_and (s.regs uartfr) (u32_mod - 1 - 0x10) in
      record s {
        regs = assign (assign s.regs uartdr dr) uartfr fr;
        console = record { input = input; output = s.console.output };
      }

pub read_reg : State → Reg → ℕ × State
read_reg s uartdr =
    (s.regs uartdr, record s { regs = assign s.regs uartfr (bit_or (s.regs uartfr) 0x10) })
read_reg s uartfr = let s' = poll s in (s'.regs uartfr, s')
read_reg s r = (s.regs r, s)

pub read : State → ℕ → ℕ × State
read s addr = elim (decode addr) [ none ↦ (identification addr, s) | some r ↦ read_reg s r ]

-- The number of bits that `Write` keeps of each register.
abbrev pub width : Reg → ℕ
width uartdr = 12
width uartrsr = 4
width uartfr = 9
width uartilpr = 8
width uartibrd = 16
width uartfbrd = 6
width uartlcr_h = 8
width uartcr = 16
width uartifls = 6
width uartimsc = 11
width uartris = 11
width uartmis = 11
width uarticr = 11
width uartdmacr = 3

-- `if (!console->out->Full()) console->out->Push(data & 0xFF)`
pub send : Console → ℕ → Console
send c value =
    if Queue.is_full c.output
    then c
    else record { input = c.input; output = (Queue.push c.output (value % 2 ^ 8)).1 }

pub write_reg : State → Reg → ℕ → State
write_reg s uartdr value = record {
  regs = assign s.regs uartdr (value % 2 ^ 12);
  console = send s.console value;
}
write_reg s r value = record s { regs = assign s.regs r (value % 2 ^ width r) }

pub write : State → ℕ → ℕ → State
write s addr value = elim (decode addr) [ none ↦ s | some r ↦ write_reg s r value ]
