-- ===== src/Kernel/Vm/Tests.antt =====
-- The theorem about VmEnter at a guest with a byte of output and one of input waiting.
use evisor.Prelude.{[], arith, false, refl, true, ◌==◌, ◌∷◌, ◌≡◌}
use evisor.Prelude.Int.{pos}
use evisor.Prelude.Outcome.{ok}
use evisor.Common.Queue
use evisor.Common.Queue.Refine
use evisor.Kernel.Task.{Tcb, running}
use evisor.Kernel.Sched.{get_current_task}
use evisor.Platforms.Board.{Devices}
use evisor.Kernel.Vm.{Machine, vm_enter}
use evisor.Kernel.Vm.Enter.{Entered, vm_enter-Entered}

abbrev guest : Tcb
guest = record {
  pid = 0;
  priority = pos 1;
  counter = pos 3;
  state = running;
  mm = record { page_table = 0; pages = 0 };
  stat = record {
    irq_pending = false;
    fiq_pending = true;
    wfx_traps = 0;
    hvc_traps = 0;
    sysreg_traps = 0;
    page_faults = 0;
    mmios = 0;
  };
  vcpu = record { regs = λ i. i; sp = 0x1000; pc = 0x80; pstate = 0 };
}

-- A queue of one word, whose low byte is 65.
abbrev one_word : Queue.Queue
one_word = record { head = 1023; tail = 0; buff = λ _. 0x141 }

one_word-IsValid : Refine.IsValid one_word
one_word-IsValid = record { head_in = omega arith; tail_in = omega arith }

abbrev devices : Devices
devices = record {
  uart = record { regs = λ _. 0; console = record { input = one_word; output = one_word } };
  gic = λ _. 0;
}

abbrev machine : Machine
machine = record {
  sched = record { tasks = guest ∷ []; cur = 0; console_forwarded_pid = 0 };
  board = devices;
  has_board = λ slot. slot == 0;
  printed = 62 ∷ [];
  cpu = record { hcr = λ k. k == 0; is_asserted = false };
}

vm_enter-Entered_example : (m' : Machine) × (vm_enter machine ≡ ok m') × Entered machine guest m'
unfolding get_current_task
vm_enter-Entered_example = vm_enter-Entered machine guest refl refl one_word-IsValid refl
