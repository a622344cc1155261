-- ===== src/Platforms/Serial/Tests.antt =====
-- The theorems about the serial port at two guests, of which the first has the console.
use evisor.Prelude.{not, [], arith, false, refl, some, ℕ, ◌++◌, ◌+◌, ◌%◌, ◌==◌, ◌^◌, ◌∷◌, ◌≡◌}
use evisor.Prelude.Int.{pos}
use evisor.Prelude.Outcome.{ok}
use evisor.Common.Queue
use evisor.Common.Queue.Refine
use evisor.Kernel.Task.{Tcb, TaskState, running}
use evisor.Kernel.Sched.{get_task}
use evisor.Kernel.Vm.{Machine}
use evisor.Platforms.Board.{Devices, qemu}
use evisor.Arch.Gic.{Gic, Regs, end_of, handle_irq}
use evisor.Drivers.Pl011.{Port, drain}
use evisor.Platforms.Serial.{System, idle, receive_byte, receive_interrupt}
use evisor.Platforms.Serial.Command.{Switched, switch_command}
use evisor.Platforms.Serial.Forward.{bytes, handle_irq-contents, kept, notified, with_console}

abbrev task : ℕ → TaskState → Tcb
task pid state = record {
  pid = pid;
  priority = pos 1;
  counter = pos 3;
  state = state;
  mm = record { page_table = 0; pages = 0 };
  stat = record {
    irq_pending = false;
    fiq_pending = false;
    wfx_traps = 0;
    hvc_traps = 0;
    sysreg_traps = 0;
    page_faults = 0;
    mmios = 0;
  };
  vcpu = record { regs = λ i. i; sp = 0x1000; pc = 0x80; pstate = 0 };
}

-- A queue of one word, whose low byte is 65.
abbrev one_word : Queue.Queue
one_word = record { head = 1023; tail = 0; buff = λ _. 0x141 }

one_word-IsValid : Refine.IsValid one_word
one_word-IsValid = record { head_in = omega arith; tail_in = omega arith }

abbrev devices : Devices
devices = record {
  uart = record { regs = λ _. 0; console = record { input = one_word; output = one_word } };
  gic = λ _. 0;
}

abbrev machine : Machine
machine = record {
  sched = record {
    tasks = task 0 running ∷ task 1 running ∷ [];
    cur = 1;
    console_forwarded_pid = 0;
  };
  board = devices;
  has_board = λ slot. not (slot == 2);
  printed = [];
  cpu = record { hcr = λ k. k == 0; is_asserted = false };
}

abbrev regs : Regs
regs = record {
  d = record {
    gicd_ctlr = 3;
    gicd_isenabler = λ _. 0;
    gicd_ipriorityr = λ _. 0;
    gicd_itargetsr = λ _. 0;
    gicd_sgir = 0;
  };
  c = record { gicc_ctlr = 3; gicc_pmr = 0xf0; gicc_iar = 33; gicc_eoir = 0 };
  h = record { gich_hcr = 1; gich_lr = λ _. 0 };
}

abbrev gic : Gic (Port × System)
gic = record { regs = regs; irq_handler = λ _. some receive_interrupt }

abbrev port : Port
port = record {
  ibrd = 26;
  fbrd = 3;
  lcrh = 0x60;
  cr = 0x301;
  imsc = 0x10;
  mis = 0x10;
  icr = 0;
  received = 0x168 ∷ b'i' ∷ [];
  sent = [];
}

handle_irq-contents_example :
    (q : Queue.Queue) × (handle_irq gic (port, record { receiver = idle; machine = machine })
      ≡ ok (
        end_of (33 % 2 ^ 12) (notified port.received regs),
        (
          record port { icr = 2 ^ 4; received = [] },
          record { receiver = idle; machine = with_console machine q },
        ),
      ))
    × Refine.IsValid q
    × (Refine.contents q ≡ kept (Refine.contents one_word) (bytes port.received))
unfolding get_task
handle_irq-contents_example =
    handle_irq-contents qemu gic port machine
      (record {
        registered = refl;
        acknowledged = omega arith;
        masked = omega arith;
        typed = omega arith;
      })
      (record {
        tsk = task 0 running;
        found = refl;
        runs = refl;
        board = refl;
        valid = one_word-IsValid;
      })

switch_command_example :
    (m' : Machine) × (drain receive_byte
        (b'?' ∷ ((b'x' ∷ []) ++ b's' ∷ (b'0' + 1) ∷ []))
        (regs, record { receiver = idle; machine = machine })
      ≡ ok (regs, record { receiver = idle; machine = m' }))
    × Switched machine 1 m'
unfolding get_task
switch_command_example =
    switch_command machine regs (b'x' ∷ []) 1 (omega arith, tt) (omega arith)
      (λ tsk found up. (refl, one_word-IsValid))
