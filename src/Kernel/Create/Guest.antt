-- ===== src/Kernel/Create/Guest.antt =====
-- src/kernel/sched/sched_create_task.cc: the guest that CreateTask leaves.
use evisor.Prelude.{
  Bool, [], ap, arith, if◌then◌else◌, update, length, refl, some, true, u64_mod, ℕ, ◌%◌, ◌*◌, ◌+◌,
  ◌<◌, ◌==◌, ◌∙◌, ◌≡◌, ◌≤◌,
}
use evisor.Prelude.Outcome.{ok}
use evisor.Common.Queue
use evisor.Common.Queue.{Queue}
use evisor.Common.Queue.Refine
use evisor.Common.Queue.Refine.{contents}
use evisor.Kernel.Task.{MmContext, Tcb}
use evisor.Kernel.Sched.{Sched, add_task, get_task}
use evisor.Kernel.Sched.Valid.{IsValid, IsValidTask}
use evisor.Kernel.Sched.Table.{add_task-get_task}
use evisor.Kernel.Vm.{Machine}
use evisor.Kernel.Create.{
  console_size, create_task, enter_task, init_board, new_console, new_queue, new_task, no_page,
  queue_size,
}
use evisor.Kernel.Create.Spare.{
  Spares, Spares-IsForest, Spares-trans, Spares-translate, kmm_malloc-Spares, kmm_zalloc-Spares,
  operator_new-Spares,
}
use evisor.Mm.KernelHeap.{heap_pages, page_size}
use evisor.Mm.PgTable.{Tables, kmm_zalloc}
use evisor.Mm.PgTable.Forest.{IsForest, translate}
use evisor.Mm.PgTable.Map.{page_number}
use evisor.Mm.PgTable.Room.{free_pages}
use evisor.Platforms.Board.{Board, Devices}
use evisor.Platforms.Board.Init.Devices.{guest_space, init_lem}

-- The new task in the table of tasks, and the console of the board: both queues are empty.
pub record Created (m m' : Machine) (tsk : Tcb) : Type 0 where
  pub valid : IsValid m'.sched
  pub found : get_task m'.sched (length m.sched.tasks) ≡ some tsk
  pub fresh : tsk ≡ record (new_task tsk.mm) { pid = length m.sched.tasks }
  pub older : (p : ℕ) → p < length m.sched.tasks → get_task m'.sched p ≡ get_task m.sched p
  pub current : m'.sched.cur ≡ m.sched.cur
  pub boarded :
      (p : ℕ) → m'.has_board p ≡ (if length m.sched.tasks == p then true else m.has_board p)
  pub input : Refine.IsValid m'.board.uart.console.input
  pub output : Refine.IsValid m'.board.uart.console.output
  pub empty_input : contents m'.board.uart.console.input ≡ []
  pub empty_output : contents m'.board.uart.console.output ≡ []
  pub registers : m'.board.uart.regs ≡ m.board.uart.regs
  pub distributor : m'.board.gic ≡ m.board.gic

new_task-IsValidTask : (mm : MmContext) → IsValidTask (new_task mm)
new_task-IsValidTask mm = record {
  counter_nonneg = refl;
  counter_bounded = omega arith;
  priority_pos = omega arith;
  priority_small = omega arith;
}

module _ (start : ℕ) (positive : 0 < start) (fits : start + heap_pages * page_size ≤ u64_mod)
    (aligned : start % 4096 ≡ 0) where
  new_queue_lem :
      (level words : ℕ → ℕ) (s : Tables)
      → 5 ≤ free_pages heap_pages s.heap
      → (heap : ℕ → Bool) × (new_queue start words s.heap ≡ ok (Queue.init words, heap))
        × Spares level 2 s (record s { heap = heap })
  unfolding new_queue
  new_queue_lem level words s room =
      let (p, heap1, e1, a1) =
        operator_new-Spares start fits positive level queue_size s (omega arith) (omega arith) in
      let s1 : Tables = record s { heap = heap1 } in
      let (q, heap2, e2, a2) =
        kmm_malloc-Spares start fits level Queue.max_size s1 (omega arith)
          (omega (arith, a1.room)) in
      let s2 : Tables = record s { heap = heap2 } in
      (heap2, rw (e1, e2) refl, Spares-trans level 1 1 s s1 s2 a1 a2)

  new_console_lem :
      (level words words' : ℕ → ℕ) (s : Tables)
      → 8 ≤ free_pages heap_pages s.heap
      → (heap : ℕ → Bool) × (new_console start words words' s.heap
          ≡ ok (record { input = Queue.init words; output = Queue.init words' }, heap))
        × Spares level 5 s (record s { heap = heap })
  unfolding new_console
  new_console_lem level words words' s room =
      let (p, heap1, e1, a1) =
        operator_new-Spares start fits positive level console_size s (omega arith) (omega arith) in
      let s1 : Tables = record s { heap = heap1 } in
      let (heap2, e2, a2) = new_queue_lem level words s1 (omega (arith, a1.room)) in
      let s2 : Tables = record s { heap = heap2 } in
      let (heap3, e3, a3) = new_queue_lem level words' s2 (omega (arith, a1.room, a2.room)) in
      let s3 : Tables = record s { heap = heap3 } in
      (
        heap3,
        rw (e1, e2, e3) refl,
        Spares-trans level 1 4 s s1 s3 a1 (Spares-trans level 2 2 s1 s2 s3 a2 a3),
      )

  -- `Board::Init` with the loops of the board behind it.
  init_board_lem :
      (b : Board) (level key words words' : ℕ → ℕ) (d : Devices) (s : Tables)
      → IsForest start level key s
      → 62 ≤ free_pages heap_pages s.heap
      → (mm : MmContext) × (s' : Tables) × (init_board start b words words' d no_page s
          ≡ ok (
            record d {
              uart = record d.uart {
                console = record { input = Queue.init words; output = Queue.init words' };
              };
            },
            mm,
            s',
          ))
        × (level' : ℕ → ℕ) × (key' : ℕ → ℕ) × IsForest start level' key' s'
        × (level' mm.page_table ≡ 1)
        × ((ipa : ℕ) → translate s'.mem mm.page_table ipa ≡ guest_space b (page_number ipa))
        × ((r ipa : ℕ) → level r ≡ 1 → translate s'.mem r ipa ≡ translate s.mem r ipa)
  unfolding init_board
  init_board_lem b level key words words' d s f room =
      let (heap, e, a) = new_console_lem level words words' s (omega arith) in
      let s1 : Tables = record s { heap = heap } in
      let (mm, s', e', level', key', f', root, space, others) =
        init_lem start positive fits aligned b level key s1 no_page refl
          (Spares-IsForest start level key 5 s s1 a f) (omega (arith, a.room)) in
      (mm, s', rw (e, e') refl, level', key', f', root, space, others)

  create_task_run :
      {p pid : ℕ} {s1 s2 : Tables} {d : Devices} {mm : MmContext} {sched : Sched} (b : Board)
      (words words' : ℕ → ℕ) (s : Tables) (m : Machine)
      → kmm_zalloc start s ≡ ok (p, s1)
      → init_board start b words words' m.board no_page s1 ≡ ok (d, mm, s2)
      → add_task m.sched (new_task mm) ≡ some (pid, sched)
      → create_task start b words words' s m
        ≡ ok (
          pid,
          s2,
          record m { sched = sched; board = d; has_board = update m.has_board pid true },
        )
  unfolding create_task
  create_task_run {s2 = s2} {d = d} b words words' s m e1 e2 e3 =
      rw (e1, e2) (ap (λ added. enter_task added d s2 m) e3)

  -- In a sound forest with 63 pages of the heap free and a valid table of tasks with a slot free,
  -- `CreateTask` returns the next pid: `GetTask` finds the new task there, ready to run, and every
  -- older task as before, the current task stays, and the table is valid. The new guest has the board
  -- with two empty queues, and finds exactly its devices; no other guest finds anything else than
  -- before; the registers of the virtual devices stay.
  pub create_task-Created :
      (b : Board) (level key words words' : ℕ → ℕ) (s : Tables) (m : Machine)
      → IsForest start level key s
      → 63 ≤ free_pages heap_pages s.heap
      → IsValid m.sched
      → length m.sched.tasks < 8
      → (tsk : Tcb) × (s' : Tables) × (m' : Machine) × (create_task start b words words' s m
          ≡ ok (length m.sched.tasks, s', m'))
        × Created m m' tsk
        × (level' : ℕ → ℕ) × (key' : ℕ → ℕ) × IsForest start level' key' s'
        × (level' tsk.mm.page_table ≡ 1)
        × ((ipa : ℕ) → translate s'.mem tsk.mm.page_table ipa ≡ guest_space b (page_number ipa))
        × ((r ipa : ℕ) → level r ≡ 1 → translate s'.mem r ipa ≡ translate s.mem r ipa)
  create_task-Created b level key words words' s m f room valid slot =
      let (p, s1, e1, a) = kmm_zalloc-Spares start fits aligned level key s f (omega arith) in
      let (mm, s', e2, level', key', f', root, space, others) =
        init_board_lem b level key words words' m.board s1
          (Spares-IsForest start level key 1 s s1 a f) (omega (arith, a.room)) in
      let (sched, e3, found, older, same, valid') =
        add_task-get_task m.sched (new_task mm) valid (new_task-IsValidTask mm) slot in
      (
        record (new_task mm) { pid = length m.sched.tasks },
        s',
        record m {
          sched = sched;
          board = record m.board {
            uart = record m.board.uart {
              console = record { input = Queue.init words; output = Queue.init words' };
            };
          };
          has_board = update m.has_board (length m.sched.tasks) true;
        },
        create_task_run b words words' s m e1 e2 e3,
        record {
          valid = valid';
          found = found;
          fresh = refl;
          older = older;
          current = same;
          boarded = λ q. refl;
          input = (Refine.init-IsValid words).0;
          output = (Refine.init-IsValid words').0;
          empty_input = (Refine.init-IsValid words).1;
          empty_output = (Refine.init-IsValid words').1;
          registers = refl;
          distributor = refl;
        },
        level',
        key',
        f',
        root,
        space,
        λ r ipa one. others r ipa one ∙ Spares-translate start level key 1 s s1 r ipa a f one,
      )
