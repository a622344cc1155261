-- ===== src/Common/Queue/Refine.antt =====
-- The ring of queue.cc behaves as the queue of the words that it holds.
use evisor.Prelude.{
  ℕ, zero, suc, ◌+◌, ◌-◌, ◌%◌, ◌<◌, ◌≡◌, refl, ap, ◌≢◌, List, [], ◌∷◌, ◌++◌, arith, length, ◌==◌,
  update, Bool-cases, ==_iff, ℕ_discrete, inl, inr, false, true, sym, ◌∙◌, ==_ne, if◌then◌else◌,
  Bool,
}
use evisor.Common.Queue.Fifo
use evisor.Common.Queue.{
  is_empty, is_full, Queue, max_size, next_index, push, pop, run, init, Op, put, get,
}

-- Both indices stay inside the buffer.
pub record IsValid (q : Queue) : Type 0 where
  pub head_in : q.head < max_size
  pub tail_in : q.tail < max_size

-- The number of words held.
abbrev pub size : Queue → ℕ
size q = (q.tail + max_size - q.head) % max_size

-- `n` words from index `h` on, going round at the end of the buffer.
unfoldable pub window : (ℕ → ℕ) → ℕ → ℕ → List ℕ
window buff h zero = []
window buff h (suc n) = buff h ∷ window buff (next_index h) n

-- The words held, oldest first.
unfoldable pub contents : Queue → List ℕ
contents q = window q.buff q.head (size q)

length-window : (buff : ℕ → ℕ) (h n : ℕ) → length (window buff h n) ≡ n
unfolding window
length-window buff h zero = refl
length-window buff h (suc n) = ap suc (length-window buff (next_index h) n)

pub length-contents : (q : Queue) → length (contents q) ≡ size q
unfolding contents
length-contents q = length-window q.buff q.head (size q)

window_of_pos :
    (buff : ℕ → ℕ) (h n : ℕ) → n ≢ 0 → window buff h n ≡ buff h ∷ window buff (next_index h) (n - 1)
unfolding window
window_of_pos buff h zero p = absurd (p refl)
window_of_pos buff h (suc n) p = ap (λ k. buff h ∷ window buff (next_index h) k) (omega arith)

-- A write past the end of a window of fewer than `max_size` words extends it.
window-update :
    (buff : ℕ → ℕ) (word n h i : ℕ)
    → h < max_size
    → n < max_size
    → i ≡ (h + n) % max_size
    → window (update buff i word) h (suc n) ≡ window buff h n ++ word ∷ []
unfolding window
window-update buff word zero h i hh hn e = ground arith
window-update buff word (suc n) h i hh hn e =
    ground (arith, window-update buff word n (next_index h) i)

-- `Push` and `Pop` keep both indices inside the buffer.
pub push-IsValid : {q : Queue} (word : ℕ) → IsValid q → IsValid (push q word).1
unfolding push
push-IsValid word v = ground arith

pub pop-IsValid : {q : Queue} → IsValid q → IsValid (pop q).1
unfolding pop
pop-IsValid v = ground arith

-- On a valid queue `Push` accepts a word exactly when fewer than 1023 are held, and then appends it.
pub push_refines :
    {q : Queue} (word : ℕ)
    → IsValid q
    → let (done, q') = push q word in (done, contents q') ≡ Fifo.push (contents q) word
unfolding push contents Fifo.push
push_refines {q} word v =
    ground (arith, length-contents q, window-update q.buff word (size q) q.head q.tail)

pop-some : {q : Queue} → IsValid q → q.head ≢ q.tail → (pop q).0 ∷ contents (pop q).1 ≡ contents q
unfolding pop contents
pop-some {q} v ne =
    rw (window_of_pos q.buff q.head (size q) (omega arith)) (elim (Bool-cases (q.head == q.tail)) [
      | inl e ↦ absurd (ne ((==_iff q.head q.tail).0 e))
      | inr e ↦ rw e (ap (λ n. q.buff q.head ∷ window q.buff (next_index q.head) n) (ground arith))
    ])

pop-none : {q : Queue} → q.head ≡ q.tail → pop q ≡ (0, q)
unfolding pop
pop-none {q} e = rw ((==_iff q.head q.tail).1 e)

contents-empty : {q : Queue} → IsValid q → q.head ≡ q.tail → contents q ≡ []
unfolding contents window
contents-empty {q} v e = let none_held : size q ≡ 0 = omega arith in rw none_held refl

-- On a valid queue `Pop` returns the oldest word and leaves the rest, or 0 from an empty queue.
pub pop_refines :
    {q : Queue} → IsValid q → let (word, q') = pop q in (word, contents q') ≡ Fifo.pop (contents q)
unfolding Fifo.pop
pop_refines {q} v = elim (ℕ_discrete q.head q.tail) [
  | yes e ↦ rw (pop-none {q = q} e, contents-empty v e)
  | no ne ↦ rw (← pop-some {q = q} v ne)
]

-- Whatever a client calls on a valid queue, it sees the replies of the queue of the words held.
pub run_refines : (ops : List Op) {q : Queue} → IsValid q → run q ops ≡ Fifo.run (contents q) ops
unfolding run Fifo.run
run_refines [] v = refl
run_refines (put word ∷ ops) v = rw (run_refines ops (push-IsValid word v), ← push_refines word v)
run_refines (get ∷ ops) v = rw (run_refines ops (pop-IsValid v), ← pop_refines v)

-- A new queue is valid and empty.
pub init-IsValid : (buff : ℕ → ℕ) → IsValid (init buff) × (contents (init buff) ≡ [])
unfolding init contents window
init-IsValid buff = (record { head_in = omega arith; tail_in = omega arith }, refl)

-- A queue that holds a word is not empty, and gives up the oldest.
pub pop-cons :
    (q : Queue) (x : ℕ) (xs : List ℕ)
    → IsValid q
    → contents q ≡ x ∷ xs
    → (is_empty q ≡ false) × ((pop q).0 ≡ x) × (contents (pop q).1 ≡ xs)
unfolding is_empty
pop-cons q x xs v e = elim (ℕ_discrete q.head q.tail) [
  | yes same ↦ absurd (clash (sym (contents-empty v same) ∙ e))
  | no ne ↦
      let parts : (pop q).0 ∷ contents (pop q).1 ≡ x ∷ xs = pop-some v ne ∙ e in
      (==_ne q.head q.tail ne, cc, cc)
]
  where
    clash : [] ≡ x ∷ xs → ⊥
    clash p = cc

pub is_empty-nil : (q : Queue) → IsValid q → contents q ≡ [] → is_empty q ≡ true
unfolding is_empty
is_empty-nil q v e = elim (ℕ_discrete q.head q.tail) [
  | yes same ↦ (==_iff q.head q.tail).1 same
  | no ne ↦ absurd (clash (pop-some v ne ∙ e))
]
  where
    clash : {w : ℕ} {ws : List ℕ} → w ∷ ws ≡ [] → ⊥
    clash p = cc

pub is_full_iff : (q : Queue) → IsValid q → is_full q ≡ (length (contents q) == 1023)
unfolding is_full
is_full_iff q v = rw (length-contents q) (ground arith)

unfoldable pub contents-push :
    (q : Queue) (word : ℕ)
    → IsValid q
    → contents (push q word).1
      ≡ (if length (contents q) == 1023 then contents q else contents q ++ word ∷ [])
unfolding Fifo.push
contents-push q word v =
    ap (λ (p : Bool × List ℕ). p.1) (push_refines word v)
    ∙ elim (Bool-cases (length (contents q) == 1023)) [ inl e ↦ rw e refl | inr e ↦ rw e refl ]
