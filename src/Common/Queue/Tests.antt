-- ===== src/Common/Queue/Tests.antt =====
-- Runs of the queue, and the theorems at concrete queues.
use evisor.Prelude.{List, [], arith, ◌∷◌, ◌≡◌}
use evisor.Common.Queue.{Queue, push, pop, run, Op, put, get}
use evisor.Common.Queue.Fifo
use evisor.Common.Queue.Refine.{IsValid, contents, push_refines, pop_refines, run_refines}

-- A queue that is about to wrap round and holds one word.
abbrev wrapping : Queue
wrapping = record { head = 1022; tail = 1023; buff = λ _. 7 }

wrapping-IsValid : IsValid wrapping
wrapping-IsValid = record { head_in = omega arith; tail_in = omega arith }

push_refines_run :
    let (done, q') = push wrapping 5 in (done, contents q') ≡ Fifo.push (contents wrapping) 5
push_refines_run = push_refines {q = wrapping} 5 wrapping-IsValid

pop_refines_run :
    let (word, q') = pop wrapping in (word, contents q') ≡ Fifo.pop (contents wrapping)
pop_refines_run = pop_refines {q = wrapping} wrapping-IsValid

abbrev session : List Op
session = put 5 ∷ get ∷ get ∷ get ∷ []

run_refines_example : run wrapping session ≡ Fifo.run (contents wrapping) session
run_refines_example = run_refines session {q = wrapping} wrapping-IsValid
