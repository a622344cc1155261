-- ===== src/Kernel/Vm/Console.antt =====
-- src/kernel/sched/sched_task_console.cc: FlushConsole prints what the guest wrote, oldest first.
use evisor.Prelude.{List, [], arith, length, map, refl, some, suc, zero, ℕ, ◌%◌, ◌<◌, ◌^◌, ◌∷◌, ◌≡◌}
use evisor.Common.Queue
use evisor.Common.Queue.{Queue}
use evisor.Common.Queue.Refine.{IsValid, contents, pop-IsValid, pop-cons, is_empty-nil}
use evisor.Kernel.Vm.{flush}

-- The characters that `printf("%c", data & 0xff)` prints for some words.
abbrev pub characters : List ℕ → List ℕ
characters ws = map (λ w. w % 2 ^ 8) ws

pub flush_lem :
    (ws : List ℕ) (fuel : ℕ) (q : Queue)
    → IsValid q
    → contents q ≡ ws
    → length ws < fuel
    → (q' : Queue) × (flush fuel q ≡ some (characters ws, q')) × IsValid q' × (contents q' ≡ [])
unfolding flush
flush_lem ws zero q v e h = absurd (omega arith)
flush_lem [] (suc fuel) q v e h = (q, rw (is_empty-nil q v e) refl, v, e)
flush_lem (w ∷ ws) (suc fuel) q v e h =
    let (more, first, left) = pop-cons q w ws v e in
    let (q', run, v', none_left) =
      flush_lem ws fuel (Queue.pop q).1 (pop-IsValid v) left (omega arith) in
    (q', rw (more, run, first) refl, v', none_left)
