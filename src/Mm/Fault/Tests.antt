-- ===== src/Mm/Fault/Tests.antt =====
-- The first fault of the first guest.
use evisor.Prelude.{arith, false, refl, true, u64_mod, ℕ, ◌*◌, ◌+◌, ◌-◌, ◌≡◌, ◌≤◌, ◌⊎◌, zero, suc}
use evisor.Prelude.Outcome.{ok, panic}
use evisor.Kernel.Task.{Tcb}
use evisor.Kernel.Sched.{init_task}
use evisor.Mm.KernelHeap.{heap_pages}
use evisor.Mm.UserHeap.{page_size, paging_pages}
use evisor.Mm.UserHeap.Laws.{AllTaken}
use evisor.Mm.PgTable.Map.{AlmostFull}
use evisor.Mm.Fault.{Memory, handle_mm_trap_memory_access_fault}
use evisor.Mm.Fault.Served.{IsSound, Served, fault_lem}

abbrev start : ℕ
start = 0x100000

abbrev user_start : ℕ
user_start = 0x40000000

fits : start + heap_pages * page_size ≤ user_start
fits = omega arith

user_fits : user_start + paging_pages * page_size ≤ u64_mod
user_fits = omega arith

abbrev guest : Tcb
guest = init_task (record { regs = λ _. 0; sp = 0; pc = 0; pstate = 0 })

abbrev unused : Memory
unused = record {
  user = record { map = λ _. 0; next = 0 };
  tables = record { heap = λ _. false; mem = λ _ _. 0 };
}

unused-IsSound : IsSound start user_start (λ _. 0) (λ _. 0) unused
unused-IsSound = record {
  forest = record {
    root = λ t e. absurd (clash e);
    child = λ t i up down lt nz. absurd (nz refl);
    held = λ t up. absurd (low up);
  };
  user = record { bytes = λ j. omega arith; in_range = omega arith };
  isolated = record {
    marked = λ r a p (root, lt, e). absurd (clash root);
    apart = λ r a r' b p (root, lt, e) other. absurd (clash root);
  };
}
  where
    clash : zero ≡ suc zero → ⊥
    clash e = omega arith

    low : 1 ≤ 0 → ⊥
    low h = omega arith

fault_lem_example :
    ((tsk' : Tcb) × (m' : Memory) × (handle_mm_trap_memory_access_fault start user_start guest
          0x80201234 unused
        ≡ ok (true, tsk', m'))
      × Served start user_start (λ _. 0) guest 0x80201234 unused tsk' m')
    ⊎ ((handle_mm_trap_memory_access_fault start user_start guest 0x80201234 unused ≡ panic)
        × (AllTaken (paging_pages - unused.user.next) unused.user.next unused.user.map
            ⊎ AlmostFull unused.tables.heap))
fault_lem_example =
    fault_lem start user_start (omega arith) fits user_fits refl refl (λ _. 0) (λ _. 0) guest
      0x80201234 unused unused-IsSound (λ nz. absurd (nz refl))
