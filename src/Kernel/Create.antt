-- ===== src/Kernel/Create.antt =====
-- src/kernel/sched/sched_create_task.cc, with `Init` of src/platforms/board.h and the constructor of
-- src/common/queue.cc: how a guest comes into being. The page of a task, the console and its queues
-- are records of the model, so that their words are no part of `Tables`. The name, the registers
-- that the context switch restores, and the system registers are left out.
mod Spare
pub mod Guest
mod Tests
use evisor.Prelude.{Bool, Option, false, if◌then◌else◌, none, some, true, update, ℕ}
use evisor.Prelude.Int.{pos}
use evisor.Prelude.Outcome.{Outcome, ok, fault, ◌>>=◌}
use evisor.Common.Queue
use evisor.Common.Queue.{Queue, max_size}
use evisor.Kernel.Task.{MmContext, Tcb, running}
use evisor.Kernel.Sched.{Sched, add_task}
use evisor.Kernel.Vm.{Machine}
use evisor.Mm.KernelHeap.{kmm_malloc}
use evisor.Mm.New.{operator_new}
use evisor.Mm.PgTable.{Tables, kmm_zalloc}
use evisor.Platforms.VirtioUart.{Console}
use evisor.Platforms.Board.{Board, Devices}
use evisor.Platforms.Board.Init

-- The task that `CreateTask` fills in, in a page that was cleared; `GetVCpuRegs` is in that page.
abbrev pub new_task : MmContext → Tcb
new_task mm = record {
  pid = 0;
  priority = pos 1;
  counter = pos 1;
  state = running;
  mm = mm;
  stat = record {
    irq_pending = false;
    fiq_pending = false;
    wfx_traps = 0;
    hvc_traps = 0;
    sysreg_traps = 0;
    page_faults = 0;
    mmios = 0;
  };
  vcpu = record { regs = λ _. 0; sp = 0; pc = 0; pstate = 0 };
}

abbrev pub no_page : MmContext
no_page = record { page_table = 0; pages = 0 }

-- The sizes of `Queue` and of `Console`: two words of 32 bits and a pointer, and two pointers.
abbrev pub queue_size : ℕ
queue_size = 16

abbrev pub console_size : ℕ
console_size = 16

-- What `AddTask` returns, with the board; a table that is full is written behind its end.
abbrev pub enter_task :
    Option (ℕ × Sched) → Devices → Tables → Machine → Outcome (ℕ × Tables × Machine)
enter_task none d s m = fault
enter_task (some (pid, sched)) d s m =
    ok (pid, s, record m { sched = sched; board = d; has_board = update m.has_board pid true })

module _ (start : ℕ) where
  -- `new Queue()`; `words` is what the memory of its buffer holds.
  unfoldable pub new_queue : (ℕ → ℕ) → (ℕ → Bool) → Outcome (Queue × (ℕ → Bool))
  new_queue words heap = do
    (object, heap1) ← operator_new start queue_size heap
    (buff, heap2) ← kmm_malloc start max_size heap1
    ok (Queue.init words, heap2)

  -- The statements of `Board::Init`
  unfoldable pub new_console : (ℕ → ℕ) → (ℕ → ℕ) → (ℕ → Bool) → Outcome (Console × (ℕ → Bool))
  new_console words words' heap = do
    (object, heap1) ← operator_new start console_size heap
    (input, heap2) ← new_queue words heap1
    (output, heap3) ← new_queue words' heap2
    ok (record { input = input; output = output }, heap3)

  -- `tsk->board->Init(tsk)`
  unfoldable pub init_board :
      Board
      → (ℕ → ℕ)
      → (ℕ → ℕ)
      → Devices
      → MmContext
      → Tables
      → Outcome (Devices × MmContext × Tables)
  init_board b words words' d mm s = do
    (console, heap) ← new_console words words' s.heap
    (mm', s') ← Init.init start b mm (record s { heap = heap })
    ok (record d { uart = record d.uart { console = console } }, mm', s')

  -- `CreateTask`: the pid, the tables and the machine after the call.
  unfoldable pub create_task :
      Board → (ℕ → ℕ) → (ℕ → ℕ) → Tables → Machine → Outcome (ℕ × Tables × Machine)
  create_task b words words' s m = do
    (page, s1) ← kmm_zalloc start s
    (d, mm, s2) ← init_board b words words' m.board no_page s1
    enter_task (add_task m.sched (new_task mm)) d s2 m
