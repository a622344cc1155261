-- ===== src/Platforms/Serial/Command.antt =====
-- src/platforms/serial.cc: the command that gives the console to another task.
use evisor.Prelude.{
  All, List, Option, Option-cases, [], ap, arith, false, inl, inr, none, refl, some, true, ℕ, ◌%◌,
  ◌++◌, ◌+◌, ◌-◌, ◌<◌, ◌^◌, ◌∷◌, ◌≡◌, ◌≢◌, Bool-cases, ==_ne, Bool, ◌∙◌,
}
use evisor.Prelude.Outcome.{ok}
use evisor.Common.Queue.Refine.{IsValid, contents}
use evisor.Common.Cstring.{isdigit}
use evisor.Kernel.Task.{Tcb}
use evisor.Kernel.Sched.{get_task, is_running}
use evisor.Kernel.Vm.{Machine, with_output}
use evisor.Kernel.Vm.Console.{characters}
use evisor.Kernel.Vm.Enter.{flush_task_lem}
use evisor.Arch.Gic.{Regs}
use evisor.Drivers.Pl011.{drain}
use evisor.Platforms.Serial.{
  command, console_switch_to, idle, receive_byte, started, switch_console, switching,
}

-- A byte that means nothing in a command.
abbrev pub IsIgnored : ℕ → Type 0
IsIgnored word = (word % 2 ^ 8 ≢ b's') × (word % 2 ^ 8 ≢ b'l')

-- A running task with this pid has the board, whose output queue is valid.
abbrev pub CanFlush : Machine → ℕ → Type 0
CanFlush m pid =
    (tsk : Tcb)
    → get_task m.sched pid ≡ some tsk
    → is_running tsk.state ≡ true
    → (m.has_board pid ≡ true) × IsValid m.board.uart.console.output

-- What the command leaves of the machine.
pub record Switched (m : Machine) (pid : ℕ) (m' : Machine) : Type 0 where
  pub missing : get_task m.sched pid ≡ none → m' ≡ m
  pub given :
      (tsk : Tcb)
      → get_task m.sched pid ≡ some tsk
      → (m'.sched ≡ console_switch_to pid m.sched) × (m'.cpu ≡ m.cpu)
  pub silent :
      (tsk : Tcb)
      → get_task m.sched pid ≡ some tsk
      → is_running tsk.state ≡ false
      → (m'.printed ≡ m.printed) × (m'.board ≡ m.board)
  pub shown :
      (tsk : Tcb)
      → get_task m.sched pid ≡ some tsk
      → is_running tsk.state ≡ true
      → (m'.printed ≡ m.printed ++ characters (contents m.board.uart.console.output))
        × (m'.board.uart.console.input ≡ m.board.uart.console.input)
        × (contents m'.board.uart.console.output ≡ [])

clash {ℓ} : {A : Type ℓ} {a : A} {o : Option A} → o ≡ none → o ≡ some a → ⊥
clash p q = cc

switch_console_missing :
    (m : Machine) (pid : ℕ)
    → get_task m.sched pid ≡ none
    → (switch_console pid m ≡ ok m) × Switched m pid m
unfolding switch_console
switch_console_missing m pid e = (
  rw (switch_console, e) refl,
  record {
    missing = λ _. refl;
    given = λ tsk f. absurd (clash e f);
    silent = λ tsk f _. absurd (clash e f);
    shown = λ tsk f _. absurd (clash e f);
  },
)

-- The same task, found twice.
found_once {ℓ} : {A : Type ℓ} {a b : A} {o : Option A} → o ≡ some a → o ≡ some b → a ≡ b
found_once p q = cc

module _ (m : Machine) (pid : ℕ) (tsk : Tcb) (e : get_task m.sched pid ≡ some tsk) where
  switch_console_silent :
      is_running tsk.state ≡ false
      → (switch_console pid m ≡ ok (record m { sched = console_switch_to pid m.sched }))
        × Switched m pid (record m { sched = console_switch_to pid m.sched })
  unfolding switch_console
  switch_console_silent stopped = (
    rw (switch_console, e, stopped) refl,
    record {
      missing = λ f. absurd (clash f e);
      given = λ t f. (refl, refl);
      silent = λ t f _. (refl, refl);
      shown = λ t f up. absurd (differ (ap (λ u. is_running u.state) (found_once e f)) stopped up);
    },
  )
    where
      differ : {x y : Bool} → x ≡ y → x ≡ false → y ≡ true → ⊥
      differ p q r = cc

  module _ (up : is_running tsk.state ≡ true) (board : m.has_board pid ≡ true)
      (v : IsValid m.board.uart.console.output) where
    switch_console_shown : (m' : Machine) × (switch_console pid m ≡ ok m') × Switched m pid m'
    unfolding switch_console
    switch_console_shown =
        let m1 : Machine = record m { sched = console_switch_to pid m.sched } in
        let (q, run, left) = flush_task_lem m1 pid board v in
        (
          record m1 {
            board = with_output m.board q;
            printed = m1.printed ++ characters (contents m.board.uart.console.output);
          },
          rw (switch_console, e, up) run,
          record {
            missing = λ f. absurd (clash f e);
            given = λ t f. (refl, refl);
            silent = λ t f stopped.
                absurd (differ (ap (λ u. is_running u.state) (found_once e f)) up stopped);
            shown = λ t f _. (refl, refl, left);
          },
        )
      where
        differ : {x y : Bool} → x ≡ y → x ≡ true → y ≡ false → ⊥
        differ p q r = cc

switch_console_lem :
    (m : Machine) (pid : ℕ)
    → CanFlush m pid
    → (m' : Machine) × (switch_console pid m ≡ ok m') × Switched m pid m'
switch_console_lem m pid h = elim (Option-cases (get_task m.sched pid)) [
  | inl e ↦ let (run, s) = switch_console_missing m pid e in (m, run, s)
  | inr (tsk, e) ↦ elim (Bool-cases (is_running tsk.state)) [
    | inl up ↦ let (board, v) = h tsk e up in switch_console_shown m pid tsk e up board v
    | inr stopped ↦
        let (run, s) = switch_console_silent m pid tsk e stopped in
        (record m { sched = console_switch_to pid m.sched }, run, s)
  ]
]

-- Bytes that mean nothing change nothing while a command is under way.
drain_ignored :
    (junk rest : List ℕ) (r : Regs) (m : Machine)
    → All IsIgnored junk
    → drain receive_byte (junk ++ rest) (r, record { receiver = started; machine = m })
      ≡ drain receive_byte rest (r, record { receiver = started; machine = m })
unfolding drain receive_byte command
drain_ignored [] rest r m h = refl
drain_ignored (word ∷ junk) rest r m h =
    rw (==_ne (word % 2 ^ 8) b's' h.0.0, ==_ne (word % 2 ^ 8) b'l' h.0.1)
      (drain_ignored junk rest r m h.1)

-- The digit that ends the command.
drain_digit :
    (r : Regs) (m m' : Machine) (pid : ℕ)
    → pid < 10
    → switch_console pid m ≡ ok m'
    → drain receive_byte ((b'0' + pid) ∷ []) (r, record { receiver = switching; machine = m })
      ≡ ok (r, record { receiver = idle; machine = m' })
unfolding drain receive_byte command
drain_digit r m m' pid small run =
    let byte : (b'0' + pid) % 2 ^ 8 ≡ b'0' + pid = omega arith in
    let back : b'0' + pid - b'0' ≡ pid = omega arith in
    let digit : isdigit (b'0' + pid) ≡ true = ground arith in rw (byte, digit, back, run) refl

-- The command `?s` with a digit, whatever bytes that are no commands come between, where a running
-- task with that pid has the board, with a valid output queue: no interrupt is given to a guest, and the
-- next byte is no command again. Where no task has the pid nothing else changes. Otherwise the task
-- gets the console; if it runs, all its output is printed, the low byte of each word, oldest first,
-- and none is left while its input stays; if it does not run, nothing is printed and the queues stay.
pub switch_command :
    (m : Machine) (r : Regs) (junk : List ℕ) (pid : ℕ)
    → All IsIgnored junk
    → pid < 10
    → CanFlush m pid
    → (m' : Machine) × (drain receive_byte
          (b'?' ∷ (junk ++ b's' ∷ (b'0' + pid) ∷ []))
          (r, record { receiver = idle; machine = m })
        ≡ ok (r, record { receiver = idle; machine = m' }))
      × Switched m pid m'
unfolding drain receive_byte command
switch_command m r junk pid ignored small h =
    let (m', run, s) = switch_console_lem m pid h in
    (
      m',
      drain_ignored junk (b's' ∷ (b'0' + pid) ∷ []) r m ignored ∙ drain_digit r m m' pid small run,
      s,
    )
