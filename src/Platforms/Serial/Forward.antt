-- ===== src/Platforms/Serial/Forward.antt =====
-- src/platforms/serial.cc, pl011_uart.cc and gic_v2.cc: the way of typed bytes from the interrupt of
-- the serial port to the console of a guest.
use evisor.Prelude.{
  true, All, Bool-cases, List, [], ap, arith, inl, inr, length, refl, some, suc, sym, take, zero, ℕ,
  ◌%◌, ◌++◌, ◌<◌, ◌==◌, ◌^◌, ◌∙◌, ◌∷◌, ◌≡◌, ◌≤◌, map, ==_ne, ==_iff, ==_refl, append_assoc, ◌≢◌,
  fun_ext,
}
use evisor.Prelude.Outcome.{ok}
use evisor.Common.Queue
use evisor.Common.Queue.{Queue}
use evisor.Common.Queue.Refine.{IsValid, contents, contents-push, push-IsValid, length-contents}
use evisor.Kernel.Task.{Tcb, running}
use evisor.Kernel.Sched.{get_task}
use evisor.Kernel.Vm.{Machine}
use evisor.Platforms.Board.{Board, qemu, bcm2711, bcm2711_nuttx}
use evisor.Arch.Gic.{Gic, Regs, handle_irq, end_of, notify_virq_hardware}
use evisor.Drivers.Pl011.{Port, drain, receive_irq, unmask}
use evisor.Prelude.Digits.{bit}
use evisor.Arch.Gic.Enable.{register_irq_lem}
use evisor.Platforms.Serial.{
  System, forward, idle, receive_byte, receive_interrupt, with_input, enable_receive_irq, uart_irq,
}

-- The console of `m` belongs to a running task with the board, whose input queue is valid.
pub record HasConsole (m : Machine) : Type 0 where
  pub tsk : Tcb
  pub found : get_task m.sched m.sched.console_forwarded_pid ≡ some tsk
  pub runs : tsk.state ≡ running
  pub board : m.has_board m.sched.console_forwarded_pid ≡ true
  pub valid : IsValid m.board.uart.console.input

-- The machine with the input queue `q`.
abbrev pub with_console : Machine → Queue → Machine
with_console m q = record m { board = with_input m.board q }

-- At most 1023 words fit.
abbrev pub kept : List ℕ → List ℕ → List ℕ
kept old new = take 1023 (old ++ new)

take-append_full : (n : ℕ) (xs ys : List ℕ) → length xs ≡ n → take n (xs ++ ys) ≡ xs
take-append_full zero [] ys e = refl
take-append_full zero (x ∷ xs) ys e = absurd (omega arith)
take-append_full (suc n) [] ys e = absurd (omega arith)
take-append_full (suc n) (x ∷ xs) ys e = ap (λ r. x ∷ r) (take-append_full n xs ys (omega arith))

take_all : (n : ℕ) (xs : List ℕ) → length xs ≤ n → take n (xs ++ []) ≡ xs
take_all zero [] h = refl
take_all zero (x ∷ xs) h = absurd (omega arith)
take_all (suc n) [] h = refl
take_all (suc n) (x ∷ xs) h = ap (λ r. x ∷ r) (take_all n xs (omega arith))

length_input : (q : Queue) → IsValid q → length (contents q) ≤ 1023
length_input q v = omega (arith, length-contents q)

-- One byte, and then the others.
kept-push :
    (q : Queue) (c : ℕ) (cs : List ℕ)
    → IsValid q
    → kept (contents (Queue.push q c).1) cs ≡ kept (contents q) (c ∷ cs)
kept-push q c cs v = elim (Bool-cases (length (contents q) == 1023)) [
  | inl full ↦
      let held : length (contents q) ≡ 1023 = (==_iff _ 1023).0 full in
      rw (contents-push q c v, full)
        (take-append_full 1023 (contents q) cs held
          ∙ sym (take-append_full 1023 (contents q) (c ∷ cs) held))
  | inr room ↦
      rw (contents-push q c v, room) (ap (take 1023) (append_assoc (contents q) (c ∷ []) cs))
]

forward_lem :
    (m : Machine) (c : ℕ)
    → HasConsole m
    → forward c m ≡ ok (with_console m (Queue.push m.board.uart.console.input c).1)
unfolding forward
forward_lem m c h = rw (forward, h.found, h.runs, h.board) refl

-- The machine after the byte still has its console.
push-HasConsole :
    (m : Machine) (c : ℕ)
    → HasConsole m
    → HasConsole (with_console m (Queue.push m.board.uart.console.input c).1)
push-HasConsole m c h = record {
  tsk = h.tsk;
  found = h.found;
  runs = h.runs;
  board = h.board;
  valid = push-IsValid c h.valid;
}

-- Typing outside of a command: no `?`.
abbrev pub IsTyped : ℕ → Type 0
IsTyped word = word % 2 ^ 8 ≢ b'?'

-- The words of the FIFO as bytes.
abbrev pub bytes : List ℕ → List ℕ
bytes words = map (λ w. w % 2 ^ 8) words

-- The registers after some bytes.
abbrev pub notified : List ℕ → Regs → Regs
notified [] r = r
notified (word ∷ words) r = notify_virq_hardware 33 r

notified_twice :
    (words : List ℕ) (r : Regs)
    → notified words (notify_virq_hardware 33 r) ≡ notify_virq_hardware 33 r
notified_twice [] r = refl
notified_twice (word ∷ words) r =
    ap (λ lr. record r { h = record r.h { gich_lr = lr } }) (fun_ext at)
  where
    at :
        (i : ℕ)
        → (notify_virq_hardware 33 (notify_virq_hardware 33 r)).h.gich_lr i
          ≡ (notify_virq_hardware 33 r).h.gich_lr i
    at i = elim (Bool-cases (0 == i)) [ inl e ↦ rw e refl | inr e ↦ rw e refl ]

receive_lem :
    (m : Machine) (r : Regs) (word : ℕ)
    → IsTyped word
    → HasConsole m
    → receive_byte (word % 2 ^ 8) (r, record { receiver = idle; machine = m })
      ≡ ok (
        notify_virq_hardware 33 r,
        record {
          receiver = idle;
          machine = with_console m (Queue.push m.board.uart.console.input (word % 2 ^ 8)).1;
        },
      )
unfolding receive_byte
receive_lem m r word typed h =
    rw (==_ne (word % 2 ^ 8) b'?' typed, forward_lem m (word % 2 ^ 8) h) refl

drain_lem :
    (words : List ℕ) (m : Machine) (r : Regs)
    → All IsTyped words
    → HasConsole m
    → (q : Queue) × (drain receive_byte words (r, record { receiver = idle; machine = m })
        ≡ ok (notified words r, record { receiver = idle; machine = with_console m q }))
      × IsValid q
      × (contents q ≡ kept (contents m.board.uart.console.input) (bytes words))
unfolding drain
drain_lem [] m r typed h = (
  m.board.uart.console.input,
  refl,
  h.valid,
  sym (
      take_all 1023 (contents m.board.uart.console.input)
        (length_input m.board.uart.console.input h.valid)),
)
drain_lem (word ∷ words) m r typed h =
    let c : ℕ = word % 2 ^ 8 in
    let q1 : Queue = (Queue.push m.board.uart.console.input c).1 in
    let m1 : Machine = with_console m q1 in
    let (q, run, valid, held) =
      drain_lem words m1 (notify_virq_hardware 33 r) typed.1 (push-HasConsole m c h) in
    (
      q,
      rw (receive_lem m r word typed.0 h) (
          run
          ∙ ap (λ r'. ok (r', record { receiver = idle; machine = with_console m q }))
              (notified_twice words r)),
      valid,
      held ∙ kept-push m.board.uart.console.input c (bytes words) h.valid,
    )

-- A controller whose interrupt of the port is registered and pending, and typed words in the FIFO.
pub record IsPending (b : Board) (g : Gic (Port × System)) (p : Port) : Type 0 where
  pub registered : g.irq_handler (uart_irq b) ≡ some receive_interrupt
  pub acknowledged : g.regs.c.gicc_iar % 2 ^ 10 ≡ uart_irq b
  pub masked : bit p.mis 4 ≡ 1
  pub typed : All IsTyped p.received

-- When the interrupt of the serial port is registered and acknowledged, no command is under way and
-- none starts in the FIFO, and the console belongs to a running task with the board and a valid input
-- queue: `HandleIrq` returns; the FIFO is empty, the low byte of each of its words stands behind
-- what was in that queue, in order, as far as 1023 words go, nothing else of the machine changes,
-- the guest's interrupt is in the list register if there was a word, and the number that was
-- acknowledged is the one whose end is reported.
pub handle_irq-contents :
    (b : Board) (g : Gic (Port × System)) (p : Port) (m : Machine)
    → IsPending b g p
    → HasConsole m
    → (q : Queue) × (handle_irq g (p, record { receiver = idle; machine = m })
        ≡ ok (
          end_of (g.regs.c.gicc_iar % 2 ^ 12) (notified p.received g.regs),
          (
            record p { icr = 2 ^ 4; received = [] },
            record { receiver = idle; machine = with_console m q },
          ),
        ))
      × IsValid q
      × (contents q ≡ kept (contents m.board.uart.console.input) (bytes p.received))
unfolding handle_irq receive_interrupt receive_irq
handle_irq-contents b g p m pending h =
    let (q, run, valid, held) = drain_lem p.received m g.regs pending.typed h in
    let number : g.regs.c.gicc_iar % 2 ^ 12 % 2 ^ 10 ≡ uart_irq b =
      omega (arith, pending.acknowledged) in
    (q, rw (handle_irq, number, pending.registered, pending.masked, run) refl, valid, held)

-- So it is for the controller that `EnableReceiveIrq` leaves.
pub enable_receive_irq-registered :
    (b : Board) (g : Gic (Port × System)) (p : Port)
    → (g' : Gic (Port × System)) × (enable_receive_irq b g p ≡ ok (g', unmask p))
      × (g'.irq_handler (uart_irq b) ≡ some receive_interrupt)
unfolding enable_receive_irq
enable_receive_irq-registered b g p =
    let (g', run, fields, handlers) =
      register_irq_lem (uart_irq b) 0 0x7f receive_interrupt g (small b) (omega arith)
        (omega arith) in
    (g', rw run refl, handlers (uart_irq b) ∙ rw (==_refl (uart_irq b)) refl)
  where
    small : (b : Board) → uart_irq b < 1020
    small qemu = omega arith
    small bcm2711 = omega arith
    small bcm2711_nuttx = omega arith
