-- ===== src/Platforms/VirtioUart/Guest.antt =====
-- How a guest receives and sends through the registers of virtio_pl011_uart.cc.
use evisor.Prelude.{
  Bool-cases, List, [], arith, bit_or, if◌then◌else◌, inl, inr, length, refl, some, sym, ℕ, ◌%◌,
  ◌++◌, ◌/◌, ◌==◌, ◌^◌, ◌∙◌, ◌∷◌, ◌≡◌,
}
use evisor.Prelude.Bits.{flag_lem}
use evisor.Common.Queue
use evisor.Common.Queue.Refine
use evisor.Common.Queue.Refine.{contents}
use evisor.Platforms.VirtioUart.{
  uartdr, uartfr, State, Console, assign, decode, poll, read_reg, read, send, write_reg, write,
}
use evisor.Platforms.VirtioUart.Ranges.{InRange, received_lem, read_at, write_at, poll-InRange}

-- The two addresses that the protocol uses.
abbrev pub data_register : ℕ
data_register = 0x000

abbrev pub flag_register : ℕ
flag_register = 0x018

pub record IsValid (s : State) : Type 0 where
  pub regs : InRange s.regs
  pub input : Refine.IsValid s.console.input
  pub output : Refine.IsValid s.console.output

-- Bit 4 of the flag register: nothing to receive.
abbrev pub is_receive_empty : ℕ → ℕ
is_receive_empty fr = fr / 16 % 2

at_data : decode data_register ≡ some uartdr
unfolding decode
at_data = refl

at_flag : decode flag_register ≡ some uartfr
unfolding decode
at_flag = refl

sent :
    (c : Console) (value : ℕ)
    → Refine.IsValid c.output
    → (contents (send c value).output ≡ (
        if length (contents c.output) == 1023
        then contents c.output
        else contents c.output ++ value % 256 ∷ []))
      × ((send c value).input ≡ c.input)
unfolding send
sent c value v = elim (Bool-cases (Queue.is_full c.output)) [
  | inl e ↦ rw (e, send) (rw (sym (Refine.is_full_iff c.output v) ∙ e) refl, refl)
  | inr e ↦ rw (e, send) (Refine.contents-push c.output (value % 2 ^ 8) v, refl)
]

-- What a poll does while input waits.
record Polled (s : State) (x : ℕ) (xs : List ℕ) : Type 0 where
  ready : is_receive_empty ((poll s).regs uartfr) ≡ 0
  byte : (poll s).regs uartdr % 256 ≡ x % 256
  rest : contents (poll s).console.input ≡ xs
  sent : (poll s).console.output ≡ s.console.output
  valid : IsValid (poll s)

poll-IsValid : (s : State) → IsValid s → IsValid (poll s)
unfolding poll
poll-IsValid s v = record {
  regs = poll-InRange s v.regs;
  input = elim (Bool-cases (Queue.is_empty s.console.input)) [
    | inl e ↦ rw (e, poll) v.input
    | inr e ↦ rw (e, poll) (Refine.pop-IsValid v.input)
  ];
  output = elim (Bool-cases (Queue.is_empty s.console.input)) [
    | inl e ↦ rw (e, poll) v.output
    | inr e ↦ rw (e, poll) v.output
  ];
}

poll-Polled :
    (s : State) (x : ℕ) (xs : List ℕ)
    → IsValid s
    → contents s.console.input ≡ x ∷ xs
    → Polled s x xs
unfolding poll
poll-Polled s x xs v e =
    let (busy, word, rest) = Refine.pop-cons s.console.input x xs v.input e in
    record {
      ready = rw (busy, poll) (flag_lem (s.regs uartfr) (v.regs uartfr)).1;
      byte = rw (busy, poll) (omega (arith, received_lem s v.regs, word));
      rest = rw (busy, poll) rest;
      sent = rw (busy, poll) refl;
      valid = poll-IsValid s v;
    }

read_flag : (s : State) → read s flag_register ≡ ((poll s).regs uartfr, poll s)
unfolding read_reg
read_flag s = read_at s flag_register uartfr at_flag

read_data :
    (s : State)
    → read s data_register
      ≡ (s.regs uartdr, record s { regs = assign s.regs uartfr (bit_or (s.regs uartfr) 0x10) })
unfolding read_reg
read_data s = read_at s data_register uartdr at_data

-- In a valid state with input waiting, reading the flag register reports it, and reading the data register then
-- yields the oldest byte, leaves the rest, and sets the receive-empty flag.
pub receive :
    (s : State) (x : ℕ) (xs : List ℕ)
    → IsValid s
    → contents s.console.input ≡ x ∷ xs
    → let (fr, s1) = read s flag_register in
      let (dr, s2) = read s1 data_register in
      (is_receive_empty fr ≡ 0)
      × (dr % 256 ≡ x % 256)
      × (contents s2.console.input ≡ xs)
      × (is_receive_empty (s2.regs uartfr) ≡ 1)
receive s x xs v e =
    let p = poll-Polled s x xs v e in
    rw (read_flag s, read_data (poll s))
      (p.ready, p.byte, p.rest, (flag_lem ((poll s).regs uartfr) (p.valid.regs uartfr)).0)

-- In a valid state with no input waiting, reading the flag register changes nothing.
pub idle :
    (s : State)
    → IsValid s
    → contents s.console.input ≡ []
    → read s flag_register ≡ (s.regs uartfr, s)
unfolding poll
idle s v e = read_flag s ∙ rw (Refine.is_empty-nil s.console.input v.input e, poll) refl

-- In a valid state with two words waiting, a guest that reads the flag register twice before the data
-- register loses a byte: the data
-- register holds the second byte of the input, and the first is gone.
pub poll_twice_loses :
    (s : State) (x y : ℕ) (xs : List ℕ)
    → IsValid s
    → contents s.console.input ≡ x ∷ y ∷ xs
    → let (fr, s1) = read s flag_register in
      let (fr', s2) = read s1 flag_register in
      let (dr, s3) = read s2 data_register in
      (dr % 256 ≡ y % 256) × (contents s3.console.input ≡ xs)
poll_twice_loses s x y xs v e =
    let p = poll-Polled s x (y ∷ xs) v e in
    let q = poll-Polled (poll s) y xs p.valid p.rest in
    rw (read_flag s, read_flag (poll s), read_data (poll (poll s))) (q.byte, q.rest)

-- In a valid state a write to the data register appends its low byte to the output, unless that is full.
pub transmit :
    (s : State) (value : ℕ)
    → IsValid s
    → let s' = write s data_register value in
      (contents s'.console.output ≡ (
        if length (contents s.console.output) == 1023
        then contents s.console.output
        else contents s.console.output ++ value % 256 ∷ []))
      × (s'.console.input ≡ s.console.input)
unfolding write_reg
transmit s value v =
    rw (write_at s data_register value uartdr at_data) (sent s.console value v.output)
