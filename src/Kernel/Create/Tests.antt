-- ===== src/Kernel/Create/Tests.antt =====
-- The first guest of a hypervisor that has just started.
use evisor.Prelude.{[], arith, false, refl, suc, u64_mod, zero, ℕ, ◌*◌, ◌+◌, ◌≡◌, ◌≤◌}
use evisor.Prelude.Outcome.{ok}
use evisor.Common.Queue
use evisor.Kernel.Task.{Tcb, VCpuContext}
use evisor.Kernel.Sched
use evisor.Kernel.Sched.Valid.{init-IsValid}
use evisor.Kernel.Vm.{Machine}
use evisor.Kernel.Create.{create_task}
use evisor.Kernel.Create.Guest.{Created, create_task-Created}
use evisor.Mm.KernelHeap.{heap_pages, page_size}
use evisor.Mm.PgTable.{Tables}
use evisor.Mm.PgTable.Forest.{IsForest, empty-IsForest, translate}
use evisor.Mm.PgTable.Map.{page_number}
use evisor.Mm.PgTable.Room.{free_pages-none}
use evisor.Platforms.Board.{qemu}
use evisor.Platforms.Board.Init.Devices.{guest_space}

abbrev start : ℕ
start = 0x100000

fits : start + heap_pages * page_size ≤ u64_mod
fits = omega arith

abbrev no_tables : Tables
no_tables = record { heap = λ _. false; mem = λ _ _. 0 }

abbrev vcpu : VCpuContext
vcpu = record { regs = λ i. i; sp = 0; pc = 0; pstate = 0 }

abbrev no_queue : Queue.Queue
no_queue = record { head = 7; tail = 9; buff = λ _. 1 }

abbrev machine : Machine
machine = record {
  sched = Sched.init vcpu;
  board = record {
    uart = record { regs = λ _. 0; console = record { input = no_queue; output = no_queue } };
    gic = λ _. 0;
  };
  has_board = λ _. false;
  printed = [];
  cpu = record { hcr = λ _. false; is_asserted = false };
}

create_task-Created_example :
    (tsk : Tcb) × (s' : Tables) × (m' : Machine) × (create_task start qemu
        (λ i. i)
        (λ i. 5)
        no_tables
        machine
      ≡ ok (1, s', m'))
    × Created machine m' tsk
    × (level' : ℕ → ℕ) × (key' : ℕ → ℕ) × IsForest start level' key' s'
    × (level' tsk.mm.page_table ≡ 1)
    × ((ipa : ℕ) → translate s'.mem tsk.mm.page_table ipa ≡ guest_space qemu (page_number ipa))
    × ((r ipa : ℕ) → zero ≡ suc zero → translate s'.mem r ipa ≡ 0)
create_task-Created_example =
    create_task-Created start (omega arith) fits refl qemu (λ _. 0) (λ _. 0) (λ i. i) (λ i. 5)
      no_tables machine (empty-IsForest start no_tables) (omega (arith, free_pages-none heap_pages))
      (init-IsValid vcpu) (omega arith)
