-- ===== src/Drivers/Pl011.antt =====
-- src/drivers/uart/pl011_uart.cc and pl011_uart.h: the serial port of the machine.
-- Of the device the model has the registers that the code writes, the mask of pending interrupts,
-- the words that wait in the receive FIFO (the flag RXFE of FR is clear while there is one, and each
-- read of DR takes the oldest), and the words written to DR. A wait for another flag of FR is taken
-- to end. The pins of the Raspberry Pi are left out.
use evisor.Prelude.{
  List, [], bit_and, bit_or, if◌then◌else◌, length, u32_mod, u64_mod, ℕ, ◌%◌, ◌*◌, ◌++◌, ◌+◌, ◌-◌,
  ◌/◌, ◌==◌, ◌^◌, ◌∷◌,
}
use evisor.Prelude.Digits.{bit}
use evisor.Prelude.Outcome.{Outcome, ok, fault, ◌>>=◌}

-- `Regs`, and the two FIFOs behind DR.
pub record Port : Type 0 where
  pub ibrd : ℕ
  pub fbrd : ℕ
  pub lcrh : ℕ
  pub cr : ℕ
  pub imsc : ℕ
  pub mis : ℕ
  pub icr : ℕ
  pub received : List ℕ
  pub sent : List ℕ

-- `SetBaudrate`: both products are of 64 bits, what comes after is of 32.
unfoldable pub set_baudrate : ℕ → ℕ → Port → Outcome Port
set_baudrate base_clock baudrate p =
    let divisor = 16 * baudrate % u64_mod in
    let bauddiv = 1000 * base_clock % u64_mod / divisor % u32_mod in
    let ibrd = bauddiv / 1000 in
    let fbrd = ((bauddiv - ibrd * 1000) * 64 + 500) % u32_mod / 1000 in
    if divisor == 0 then fault else ok (record p { ibrd = ibrd; fbrd = fbrd })

-- `Enable`
abbrev pub enable : ℕ → ℕ → Port → Outcome Port
enable base_clock baudrate p = set_baudrate base_clock baudrate p >>= λ p'.
    ok (record p' { lcrh = 0x60; cr = bit_or (bit_or (2 ^ 0) (2 ^ 8)) (2 ^ 9) })

-- `Disable`
abbrev pub disable : Port → Port
disable p = record p { cr = 0 }

-- `Write`: the number of bytes written.
abbrev pub write : List ℕ → Port → ℕ × Port
write buf p = (length buf, record p { sent = p.sent ++ buf })

-- `IMSC | kImscRxim`, at the end of `EnableReceiveIrq`
abbrev pub unmask : Port → Port
unmask p = record p { imsc = bit_or p.imsc (2 ^ 4) }

-- `DisableReceiveIrq`
abbrev pub disable_receive_irq : Port → Port
disable_receive_irq p = record p { imsc = bit_and p.imsc (u32_mod - 1 - 2 ^ 4) }

module _ {S : Type 0} (irq_handler : ℕ → S → Outcome S) where
  -- The loop while the FIFO is not empty: `Read` of one byte, and the handler's call.
  unfoldable pub drain : List ℕ → S → Outcome S
  drain [] s = ok s
  drain (word ∷ words) s = let rest = drain words in irq_handler (word % 2 ^ 8) s >>= λ s'. rest s'

  -- The interrupt handler that `EnableReceiveIrq` registers.
  unfoldable pub receive_irq : Port → S → Outcome (Port × S)
  receive_irq p s =
      if bit p.mis 4 == 0
      then ok (record p { icr = 2 ^ 4 }, s)
      else drain p.received s >>= λ s'. ok (record p { icr = 2 ^ 4; received = [] }, s')
