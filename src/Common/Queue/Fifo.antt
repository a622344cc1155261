-- ===== src/Common/Queue/Fifo.antt =====
-- What a client of queue.h may rely on: a first-in first-out queue of at most 1023 words.
use evisor.Prelude.{ℕ, Bool, true, false, List, [], ◌∷◌, ◌++◌, length, ◌==◌, if◌then◌else◌}

unfoldable pub push : List ℕ → ℕ → Bool × List ℕ
push xs word = if length xs == 1023 then (false, xs) else (true, xs ++ word ∷ [])

unfoldable pub pop : List ℕ → ℕ × List ℕ
pop [] = (0, [])
pop (x ∷ xs) = (x, xs)

-- What a client can call.
pub data Op : Type 0 where
  put : ℕ → Op
  get : Op

-- What it is told: whether the word was taken, or the word that came out.
pub data Reply : Type 0 where
  taken : Bool → Reply
  given : ℕ → Reply

unfoldable pub run : List ℕ → List Op → List Reply
run xs [] = []
run xs (put w ∷ ops) = let (done, ys) = push xs w in taken done ∷ run ys ops
run xs (get ∷ ops) = let (w, ys) = pop xs in given w ∷ run ys ops
