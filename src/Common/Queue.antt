-- ===== src/Common/Queue.antt =====
-- src/common/queue.h and queue.cc: the ring of 32-bit words behind a guest's console.
mod Fifo
pub mod Refine
mod Tests
pub use Fifo.{Op, put, get, Reply, taken, given}
use evisor.Prelude.{
  ℕ, ◌+◌, ◌%◌, Bool, true, false, u32_mod, ◌==◌, if◌then◌else◌, update, List, [], ◌∷◌,
}

-- `kMaxSize`
abbrev pub max_size : ℕ
max_size = 1024

-- `buff_` is the memory behind the pointer, word by word.
pub record Queue : Type 0 where
  pub head : ℕ
  pub tail : ℕ
  pub buff : ℕ → ℕ

-- The constructor: the buffer is what the allocator returns.
unfoldable pub init : (ℕ → ℕ) → Queue
init buff = record { head = 0; tail = 0; buff = buff }

unfoldable pub is_empty : Queue → Bool
is_empty q = q.head == q.tail

unfoldable pub is_full : Queue → Bool
is_full q = q.head == (q.tail + 1) % u32_mod % max_size

-- `i++` followed by the test against `kMaxSize`
abbrev pub next_index : ℕ → ℕ
next_index i = if (i + 1) % u32_mod == max_size then 0 else (i + 1) % u32_mod

unfoldable pub push : Queue → ℕ → Bool × Queue
unfolding is_full
push q word =
    if is_full q
    then (false, q)
    else (true, record q { buff = update q.buff q.tail word; tail = next_index q.tail })

unfoldable pub pop : Queue → ℕ × Queue
unfolding is_empty
pop q = if is_empty q then (0, q) else (q.buff q.head, record q { head = next_index q.head })

-- A client's calls in order, with what each returns.
unfoldable pub run : Queue → List Op → List Reply
run q [] = []
run q (put w ∷ ops) = let (done, q') = push q w in taken done ∷ run q' ops
run q (get ∷ ops) = let (w, q') = pop q in given w ∷ run q' ops
