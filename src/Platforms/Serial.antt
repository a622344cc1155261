-- ===== src/Platforms/Serial.antt =====
-- src/platforms/serial.cc: the bytes typed at the serial port of the machine, which are commands to
-- the hypervisor or go to the guest that has the console. Logging and PrintTasks, which print, are
-- left out.
pub mod Command
pub mod Forward
mod Tests
use evisor.Prelude.{Bool, List, false, if◌then◌else◌, none, some, true, update, ℕ, ◌+◌, ◌-◌, ◌==◌}
use evisor.Prelude.Outcome.{Outcome, ok, fault, ◌>>=◌}
use evisor.Common.Cstring.{isdigit}
use evisor.Common.Queue
use evisor.Common.Queue.{Queue}
use evisor.Kernel.Task.{Tcb}
use evisor.Kernel.Sched.{Sched, get_task, is_running}
use evisor.Platforms.Board.{Board, Devices, qemu, bcm2711, bcm2711_nuttx}
use evisor.Kernel.Vm.{Machine, flush_task}
use evisor.Arch.Gic.{Gic, Handler, Regs, notify_virq_hardware, register_irq}
use evisor.Drivers.Pl011.{Port, disable, disable_receive_irq, enable, receive_irq, unmask, write}

-- The two static variables of the handler.
pub record Receiver : Type 0 where
  pub hypervisor_command_comming : Bool
  pub hypervisor_command_switch_req : Bool

-- What the handler changes besides the interrupt controller.
pub record System : Type 0 where
  pub receiver : Receiver
  pub machine : Machine

-- `ConsoleSwitchTo`
abbrev pub console_switch_to : ℕ → Sched → Sched
console_switch_to pid s = record s { console_forwarded_pid = pid }

-- No command, the start of one, and a command that wants a digit.
abbrev pub idle : Receiver
idle = record { hypervisor_command_comming = false; hypervisor_command_switch_req = false }

abbrev pub started : Receiver
started = record { hypervisor_command_comming = true; hypervisor_command_switch_req = false }

abbrev pub switching : Receiver
switching = record { hypervisor_command_comming = true; hypervisor_command_switch_req = true }

-- The digit of the command that gives the console to another task.
unfoldable pub switch_console : ℕ → Machine → Outcome Machine
switch_console pid m = elim (get_task m.sched pid) [
  | none ↦ ok m
  | some tsk ↦
      let m' = record m { sched = console_switch_to pid m.sched } in
      if is_running tsk.state then flush_task pid m' else ok m'
]

-- The branch with a command under way.
unfoldable pub command : ℕ → System → Outcome System
command c s =
    if s.receiver.hypervisor_command_switch_req
    then ((if isdigit c then switch_console (c - b'0') s.machine else ok s.machine)
        >>= (λ m. ok (record { receiver = idle; machine = m })))
    else if c == b's'
    then ok (record s { receiver = record s.receiver { hypervisor_command_switch_req = true } })
    else if c == b'l'
    then ok (record s { receiver = record s.receiver { hypervisor_command_comming = false } })
    else ok s

-- `console->in->Push(c)`
abbrev pub with_input : Devices → Queue → Devices
with_input d q = record d { uart = record d.uart { console = record d.uart.console { input = q } } }

abbrev pub push_input : ℕ → Devices → Devices
push_input c d = with_input d (Queue.push d.uart.console.input c).1

-- The branch that forwards a byte, before the interrupt: a task that is not there, or has no board,
-- is a null pointer.
unfoldable pub forward : ℕ → Machine → Outcome Machine
forward c m =
    let pid = m.sched.console_forwarded_pid in
    elim (get_task m.sched pid) [
      | none ↦ fault
      | some tsk ↦
          if is_running tsk.state
          then (if m.has_board pid then ok (record m { board = push_input c m.board }) else fault)
          else ok m
    ]

-- The handler of `Init`, called for each byte.
unfoldable pub receive_byte : ℕ → Regs × System → Outcome (Regs × System)
receive_byte c (r, s) =
    if s.receiver.hypervisor_command_comming
    then (command c s >>= (λ s'. ok (r, s')))
    else if c == b'?'
    then ok (r, record s { receiver = record s.receiver { hypervisor_command_comming = true } })
    else forward c s.machine >>= λ m. ok (notify_virq_hardware 33 r, record s { machine = m })

-- The interrupt of the port, as `EnableReceiveIrq` registers it.
unfoldable pub receive_interrupt : Handler (Port × System)
receive_interrupt r (p, s) =
    receive_irq receive_byte p (r, s) >>= λ (p', (r', s')). ok (r', (p', s'))

-- `irq_id` of `EnableReceiveIrq`
abbrev pub uart_irq : Board → ℕ
uart_irq qemu = 33
uart_irq bcm2711 = 121 + 32
uart_irq bcm2711_nuttx = 121 + 32

-- `EnableReceiveIrq`
unfoldable pub enable_receive_irq :
    Board → Gic (Port × System) → Port → Outcome (Gic (Port × System) × Port)
enable_receive_irq b g p =
    register_irq (uart_irq b) 0 0x7f receive_interrupt g >>= λ g'. ok (g', unmask p)

-- `Init`
unfoldable pub init : Board → ℕ → Gic (Port × System) → Port → Outcome (Gic (Port × System) × Port)
unfolding enable_receive_irq
init b reference_clock g p = enable_receive_irq b g p >>= λ (g', p').
    enable reference_clock 115200 p' >>= λ p''. ok (g', p'')

-- `Send`
abbrev pub send : List ℕ → Port → ℕ × Port
send buf p = write buf p

-- `~Serial`
abbrev pub close : Port → Port
close p = disable (disable_receive_irq p)
