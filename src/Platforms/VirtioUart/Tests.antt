-- ===== src/Platforms/VirtioUart/Tests.antt =====
-- The theorems about the serial port at a concrete state: two bytes wait to be received.
use evisor.Prelude.{[], arith, refl, some, ◌%◌, ◌-◌, ◌/◌, ◌^◌, ◌∷◌, ◌≡◌, ◌≢◌}
use evisor.Common.Queue
use evisor.Common.Queue.Refine
use evisor.Common.Queue.Refine.{contents, window}
use evisor.Platforms.VirtioUart.{uartfr, uartibrd, State, initial, decode, read, write}
use evisor.Platforms.VirtioUart.Ranges.{
  InRange, initial-InRange, read-InRange, Reach-InRange, here, next, load, store, read-write_reg,
}
use evisor.Platforms.VirtioUart.Guest.{
  IsValid, data_register, flag_register, is_receive_empty, receive, idle,
}

abbrev waiting : Queue.Queue
waiting = record { head = 1023; tail = 1; buff = λ i. 66 - i / 1023 }

abbrev empty : Queue.Queue
empty = record { head = 5; tail = 5; buff = λ _. 0 }

abbrev two_bytes : State
two_bytes = record { regs = initial; console = record { input = waiting; output = empty } }

abbrev no_bytes : State
no_bytes = record { regs = initial; console = record { input = empty; output = empty } }

empty-IsValid : Refine.IsValid empty
empty-IsValid = record { head_in = omega arith; tail_in = omega arith }

two_bytes-IsValid : IsValid two_bytes
two_bytes-IsValid = record {
  regs = initial-InRange;
  input = record { head_in = omega arith; tail_in = omega arith };
  output = empty-IsValid;
}

no_bytes-IsValid : IsValid no_bytes
no_bytes-IsValid = record { regs = initial-InRange; input = empty-IsValid; output = empty-IsValid }

waiting-contents : contents waiting ≡ 65 ∷ 66 ∷ []
unfolding contents window
waiting-contents = refl

empty-contents : contents empty ≡ []
unfolding contents window
empty-contents = refl

receive_example :
    let (fr, s1) = read two_bytes flag_register in
    let (dr, s2) = read s1 data_register in
    (is_receive_empty fr ≡ 0)
    × (dr % 256 ≡ 65 % 256)
    × (contents s2.console.input ≡ 66 ∷ [])
    × (is_receive_empty (s2.regs uartfr) ≡ 1)
receive_example = receive two_bytes 65 (66 ∷ []) two_bytes-IsValid waiting-contents

idle_run : read no_bytes flag_register ≡ (no_bytes.regs uartfr, no_bytes)
idle_run = idle no_bytes no_bytes-IsValid empty-contents

read-InRange_run : InRange (read two_bytes 0x018).1.regs
read-InRange_run = read-InRange two_bytes 0x018 initial-InRange

abbrev after_write : State
after_write = write two_bytes 0x004 0x12345

abbrev after_read : State
after_read = (read after_write 0x000).1

Reach-InRange_example : InRange after_read.regs
Reach-InRange_example =
    Reach-InRange two_bytes.console after_read (next (next here (store 0x004 0x12345)) (load 0x000))

baud_rate : decode 0x024 ≡ some uartibrd
unfolding decode
baud_rate = refl

baud_not_flag : uartibrd ≢ uartfr
baud_not_flag e = cc

read-write_reg_run : (read (write two_bytes 0x024 0x12345) 0x024).0 ≡ 0x12345 % 2 ^ 16
read-write_reg_run = read-write_reg two_bytes 0x024 0x12345 uartibrd baud_rate baud_not_flag
