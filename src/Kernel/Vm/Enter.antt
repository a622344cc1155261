-- ===== src/Kernel/Vm/Enter.antt =====
-- src/kernel/vm/vm.cc: what a guest finds when it runs, and what its console showed.
use evisor.Prelude.{
  Bool-cases, arith, ==_iff, false, inl, inr, length, not, refl, some, true, ◌++◌, ◌<◌, ◌==◌, ◌≡◌,
  sym, ◌∙◌, [], ℕ,
}
use evisor.Prelude.Outcome.{ok}
use evisor.Common.Queue
use evisor.Common.Queue.{Queue, max_size}
use evisor.Common.Queue.Refine.{IsValid, contents, length-contents}
use evisor.Kernel.Task.{Tcb}
use evisor.Kernel.Sched.{get_current_task}
use evisor.Platforms.Board
use evisor.Platforms.Board.{Devices}
use evisor.Kernel.Vm.{Machine, flush_console, flush_task, run_vcpu, set_stat, vm_enter, with_output}
use evisor.Kernel.Vm.Lines.{IsSynced, Lines, set_cpu_virtual_interrupt-Lines}
use evisor.Kernel.Vm.Console.{characters, flush_lem}

-- What VmEnter did for the task `t` in the current slot.
pub record Entered (m : Machine) (t : Tcb) (m' : Machine) : Type 0 where
  pub lines :
      Lines true (not (Queue.is_empty m.board.uart.console.input)) t.stat.fiq_pending m.cpu m'.cpu
  pub shown :
      t.pid ≡ m.sched.console_forwarded_pid
      → (m'.printed ≡ m.printed ++ characters (contents m.board.uart.console.output))
        × (m'.board.uart.console.input ≡ m.board.uart.console.input)
        × (contents m'.board.uart.console.output ≡ [])
  pub hidden :
      (t.pid == m.sched.console_forwarded_pid) ≡ false
      → (m'.printed ≡ m.printed) × (m'.board ≡ m.board)

-- The task, and the machine, when `board->VmEnter` has been called.
abbrev entering_task : Machine → Tcb → Tcb
entering_task m t = record t { stat = Board.vm_enter m.board t.stat }

abbrev entering : Machine → Tcb → Machine
entering m t = record m { sched = set_stat m.sched t (Board.vm_enter m.board t.stat) }

pub flush_task_lem :
    (m : Machine) (slot : ℕ)
    → m.has_board slot ≡ true
    → IsValid m.board.uart.console.output
    → (q : Queue) × (flush_task slot m
        ≡ ok (record m {
          board = with_output m.board q;
          printed = m.printed ++ characters (contents m.board.uart.console.output);
        }))
      × (contents q ≡ [])
unfolding flush_task
flush_task_lem m slot board v =
    let out = m.board.uart.console.output in
    let short : length (contents out) < max_size = omega (arith, length-contents out) in
    let (q, run, valid, none_left) = flush_lem (contents out) max_size out v refl short in
    (q, rw (flush_task, board, run) refl, none_left)

flush_console_lem :
    (m : Machine)
    → m.has_board m.sched.cur ≡ true
    → IsValid m.board.uart.console.output
    → (q : Queue) × (flush_console m
        ≡ ok (record m {
          board = with_output m.board q;
          printed = m.printed ++ characters (contents m.board.uart.console.output);
        }))
      × (contents q ≡ [])
unfolding flush_console
flush_console_lem m board v = flush_task_lem m m.sched.cur board v

-- The two ways from VmEnter to RunVcpu: after a flush, and at once.
vm_enter_flushed :
    (m m' : Machine) (t : Tcb)
    → get_current_task m.sched ≡ some t
    → m.has_board m.sched.cur ≡ true
    → (t.pid == m.sched.console_forwarded_pid) ≡ true
    → flush_console (entering m t) ≡ ok m'
    → vm_enter m ≡ ok (run_vcpu (entering_task m t) m')
unfolding vm_enter
vm_enter_flushed m m' t current board same flushed =
    rw (vm_enter, current, board, same, flushed) refl

vm_enter_quiet :
    (m : Machine) (t : Tcb)
    → get_current_task m.sched ≡ some t
    → m.has_board m.sched.cur ≡ true
    → (t.pid == m.sched.console_forwarded_pid) ≡ false
    → vm_enter m ≡ ok (run_vcpu (entering_task m t) (entering m t))
unfolding vm_enter
vm_enter_quiet m t current board other = rw (vm_enter, current, board, other) refl

-- With a current task that has the board, a valid queue of output and the flag of
-- SetCpuVirtualInterrupt in step with HCR_EL2, VmEnter returns, and flag and register are in step
-- again: the IRQ line is asserted exactly when input waits, the FIQ line when one was pending, and
-- no other bit of HCR_EL2 changes. A task that holds the console has all its output printed, the low
-- byte of each word, oldest first, and no output is left while the input stays; for any other task
-- nothing is printed and the console stays.
pub vm_enter-Entered :
    (m : Machine) (t : Tcb)
    → get_current_task m.sched ≡ some t
    → m.has_board m.sched.cur ≡ true
    → IsValid m.board.uart.console.output
    → IsSynced m.cpu
    → (m' : Machine) × (vm_enter m ≡ ok m') × Entered m t m'
unfolding run_vcpu Board.vm_enter
vm_enter-Entered m t current board v synced =
    let t' = entering_task m t in
    let m1 = entering m t in
    let (q, flushed, none_left) = flush_console_lem m1 board v in
    let m2 = record m1 {
      board = with_output m.board q;
      printed = m1.printed ++ characters (contents m.board.uart.console.output);
    } in
    let lines = set_cpu_virtual_interrupt-Lines true t'.stat m.cpu synced in
    elim (Bool-cases (t.pid == m.sched.console_forwarded_pid)) [
      | inl same ↦ (
        run_vcpu t' m2,
        vm_enter_flushed m m2 t current board same flushed,
        record {
          lines = rw board lines;
          shown = λ _. (refl, refl, none_left);
          hidden = λ e. absurd (clash (sym same ∙ e));
        },
      )
      | inr other ↦ (
        run_vcpu t' m1,
        vm_enter_quiet m t current board other,
        record {
          lines = rw board lines;
          shown =
              λ e. absurd (clash (sym ((==_iff t.pid m.sched.console_forwarded_pid).1 e) ∙ other));
          hidden = λ _. (refl, refl);
        },
      )
    ]
  where
    clash : true ≡ false → ⊥
    clash p = cc
