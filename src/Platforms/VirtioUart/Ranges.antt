-- ===== src/Platforms/VirtioUart/Ranges.antt =====
-- The registers of virtio_pl011_uart.cc never exceed their widths, and read back what was written.
use evisor.Prelude.{
  ==_iff, ==_refl, Bool-cases, Option-cases, ap, arith, bit_and, bit_or, if◌then◌else◌, inl, inr,
  refl, some, subst, sym, u32_mod, ℕ, ◌%◌, ◌*◌, ◌+◌, ◌-◌, ◌/◌, ◌<◌, ◌==◌, ◌^◌, ◌∙◌, ◌≡◌, ◌≢◌,
}
use evisor.Prelude.Bits.{replace_byte, flag_lem}
use evisor.Common.Queue
use evisor.Platforms.VirtioUart.{
  Reg, uartdr, uartrsr, uartfr, uartilpr, uartibrd, uartfbrd, uartlcr_h, uartcr, uartifls, uartimsc,
  uartris, uartmis, uarticr, uartdmacr, Console, Regs, State, initial, number, assign, decode, poll,
  read_reg, read, width, write_reg, write,
}

-- The registers of the PL011 by the manual: the first value that does not fit.
abbrev pub limit : Reg → ℕ
limit uartdr = 4096
limit uartrsr = 16
limit uartfr = 512
limit uartilpr = 256
limit uartibrd = 65536
limit uartfbrd = 64
limit uartlcr_h = 256
limit uartcr = 65536
limit uartifls = 64
limit uartimsc = 2048
limit uartris = 2048
limit uartmis = 2048
limit uarticr = 2048
limit uartdmacr = 8

abbrev pub InRange : Regs → Type 0
InRange regs = (r : Reg) → regs r < limit r

of_number : ℕ → Reg
of_number n =
    if n == 0
    then uartdr
    else if n == 1
    then uartrsr
    else if n == 2
    then uartfr
    else if n == 3
    then uartilpr
    else if n == 4
    then uartibrd
    else if n == 5
    then uartfbrd
    else if n == 6
    then uartlcr_h
    else if n == 7
    then uartcr
    else if n == 8
    then uartifls
    else if n == 9
    then uartimsc
    else if n == 10
    then uartris
    else if n == 11
    then uartmis
    else if n == 12
    then uarticr
    else uartdmacr

of_number-number : (r : Reg) → of_number (number r) ≡ r
unfolding of_number
of_number-number uartdr = refl
of_number-number uartrsr = refl
of_number-number uartfr = refl
of_number-number uartilpr = refl
of_number-number uartibrd = refl
of_number-number uartfbrd = refl
of_number-number uartlcr_h = refl
of_number-number uartcr = refl
of_number-number uartifls = refl
of_number-number uartimsc = refl
of_number-number uartris = refl
of_number-number uartmis = refl
of_number-number uarticr = refl
of_number-number uartdmacr = refl

number-injective : (r q : Reg) → number r ≡ number q → r ≡ q
number-injective r q e = sym (of_number-number r) ∙ (ap of_number e ∙ of_number-number q)

pub assign_self : (regs : Regs) (r : Reg) (value : ℕ) → assign regs r value r ≡ value
assign_self regs r value = rw ==_refl refl

pub assign-InRange :
    (regs : Regs) (r : Reg) (value : ℕ)
    → value < limit r
    → InRange regs
    → InRange (assign regs r value)
assign-InRange regs r value h v q = elim (Bool-cases (number r == number q)) [
  | inl e ↦
      rw e
        (subst (λ x. value < limit x) (number-injective r q ((==_iff (number r) (number q)).0 e)) h)
  | inr e ↦ rw e (v q)
]

-- What a poll puts into the data register.
abbrev pub received : State → ℕ
received s = bit_or (bit_and (s.regs uartdr) 0xf00) ((Queue.pop s.console.input).0 % 2 ^ 8)

pub received_lem :
    (s : State)
    → InRange s.regs
    → received s ≡ s.regs uartdr / 256 * 256 + (Queue.pop s.console.input).0 % 256
received_lem s v =
    replace_byte (s.regs uartdr) ((Queue.pop s.console.input).0 % 256) (v uartdr) (omega arith)

received-lt : (s : State) → InRange s.regs → received s < 2 ^ 12
received-lt s v = rw (received_lem s v) (let h : s.regs uartdr < 4096 = v uartdr in omega arith)

pub poll-InRange : (s : State) → InRange s.regs → InRange (poll s).regs
unfolding poll
poll-InRange s v = elim (Bool-cases (Queue.is_empty s.console.input)) [
  | inl e ↦ rw e v
  | inr e ↦ rw e (
      assign-InRange (assign s.regs uartdr (received s)) uartfr
        (bit_and (s.regs uartfr) (u32_mod - 1 - 0x10)) (flag_lem (s.regs uartfr) (v uartfr)).3
        (assign-InRange s.regs uartdr (received s) (received-lt s v) v))
]

read_reg-InRange : (s : State) (r : Reg) → InRange s.regs → InRange (read_reg s r).1.regs
unfolding read_reg
read_reg-InRange s uartdr v =
    assign-InRange s.regs uartfr _ (flag_lem (s.regs uartfr) (v uartfr)).2 v
read_reg-InRange s uartfr v = poll-InRange s v
read_reg-InRange s _ v = v

masked : (r : Reg) (value : ℕ) → value % 2 ^ width r < limit r
masked uartdr value = omega arith
masked _ value = omega arith

write_reg-InRange :
    (s : State) (r : Reg) (value : ℕ) → InRange s.regs → InRange (write_reg s r value).regs
unfolding write_reg
write_reg-InRange s uartdr value v =
    assign-InRange s.regs uartdr (value % 2 ^ 12) (masked uartdr value) v
write_reg-InRange s r value v = assign-InRange s.regs r (value % 2 ^ width r) (masked r value) v

pub initial-InRange : InRange initial
unfolding initial
initial-InRange uartdr = omega arith
initial-InRange _ = omega arith

pub read_at : (s : State) (addr : ℕ) (r : Reg) → decode addr ≡ some r → read s addr ≡ read_reg s r
unfolding read
read_at s addr r e = rw (e, read) refl

pub write_at :
    (s : State) (addr value : ℕ) (r : Reg)
    → decode addr ≡ some r
    → write s addr value ≡ write_reg s r value
unfolding write
write_at s addr value r e = rw (e, write) refl

pub read-InRange : (s : State) (addr : ℕ) → InRange s.regs → InRange (read s addr).1.regs
unfolding read
read-InRange s addr v = elim (Option-cases (decode addr)) [
  | inl e ↦ rw (e, read) v
  | inr (r, e) ↦ rw (e, read) (read_reg-InRange s r v)
]

pub write-InRange :
    (s : State) (addr value : ℕ) → InRange s.regs → InRange (write s addr value).regs
unfolding write
write-InRange s addr value v = elim (Option-cases (decode addr)) [
  | inl e ↦ rw (e, write) v
  | inr (r, e) ↦ rw (e, write) (write_reg-InRange s r value v)
]

-- What happens to the port: the guest loads or stores, the rest of the hypervisor changes the queues.
pub data Step (s : State) : State → Type 0 where
  load : (addr : ℕ) → Step s (read s addr).1
  store : (addr value : ℕ) → Step s (write s addr value)
  queues : (c : Console) → Step s (record s { console = c })

pub data Reach (s : State) : State → Type 0 where
  here : Reach s s
  next : {t u : State} → Reach s t → Step t u → Reach s u

Step-InRange : {s t : State} → Step s t → InRange s.regs → InRange t.regs
Step-InRange {s} (load addr) v = read-InRange s addr v
Step-InRange {s} (store addr value) v = write-InRange s addr value v
Step-InRange (queues c) v = v

-- From the values after the reset on, no sequence of loads and stores by the guest, whatever happens
-- to the queues between them, takes a register out of the width that the PL011 gives it.
pub Reach-InRange :
    (c : Console) (s : State) → Reach (record { regs = initial; console = c }) s → InRange s.regs
Reach-InRange c s here = initial-InRange
Reach-InRange c s (next {t} r st) = Step-InRange st (Reach-InRange c t r)

read_back :
    (s : State) (r : Reg) (value : ℕ)
    → r ≢ uartfr
    → (read_reg (write_reg s r value) r).0 ≡ value % 2 ^ width r
unfolding read_reg write_reg
read_back s uartdr value h = refl
read_back s uartfr value h = absurd (h refl)
read_back s _ value h = refl

-- A register other than the flag register, once written, reads back the bits that it keeps.
pub read-write_reg :
    (s : State) (addr value : ℕ) (r : Reg)
    → decode addr ≡ some r
    → r ≢ uartfr
    → (read (write s addr value) addr).0 ≡ value % 2 ^ width r
read-write_reg s addr value r e h =
    rw (write_at s addr value r e, read_at (write_reg s r value) addr r e) (read_back s r value h)
