-- ===== src/Kernel/Sched/Table.antt =====
-- The table of tasks: AddTask, GetTask and ExitTask.
use evisor.Prelude.{
  All, All-append, List, Option, [], ap, arith, false, get_elem?, inl, inr, length, length-append,
  map, none, refl, set, some, suc, sym, true, zero, ℕ, ◌++◌, ◌+◌, ◌<◌, ◌∙◌, ◌∷◌, ◌≡◌, ◌≢◌, ◌≤◌, ◌⊎◌,
}
use evisor.Prelude.Int.{ℤ, pos}
use evisor.Kernel.Task.{Tcb, TaskState, running, waitting, zombie, dead}
use evisor.Kernel.Sched.{Sched, Switch, is_running, refill, add_task, get_task, mark, exit_task}
use evisor.Kernel.Sched.Valid.{IsValidTask, IsValid}
use evisor.Kernel.Sched.Terminate.{Chosen, Refilled}
use evisor.Kernel.Sched.Tick.{schedule_total}

get_elem?-append_last {ℓ} :
    {A : Type ℓ} (xs : List A) (a : A) → get_elem? (xs ++ a ∷ []) (length xs) ≡ some a
get_elem?-append_last [] a = refl
get_elem?-append_last (x ∷ xs) a = get_elem?-append_last xs a

get_elem?-append_left {ℓ} :
    {A : Type ℓ} (xs ys : List A) (i : ℕ) → i < length xs → get_elem? (xs ++ ys) i ≡ get_elem? xs i
get_elem?-append_left [] ys i h = elim h [ ]
get_elem?-append_left (x ∷ xs) ys zero h = refl
get_elem?-append_left (x ∷ xs) ys (suc i) h = get_elem?-append_left xs ys i (omega arith)

get_task_lem : (s : Sched) (p : ℕ) → p < length s.tasks → get_task s p ≡ get_elem? s.tasks p
unfolding get_task
get_task_lem s p h = ground arith

add_task_lem :
    (s : Sched) (t : Tcb)
    → length s.tasks < 8
    → add_task s t
      ≡ some
          (length s.tasks, record s { tasks = s.tasks ++ record t { pid = length s.tasks } ∷ [] })
unfolding add_task
add_task_lem s t h = ground arith

-- In a valid table with a slot free, `AddTask` gives the task the next pid; `GetTask` then finds it under that pid
-- and every older task as before, the current task is unchanged, and the table stays valid.
pub add_task-get_task :
    (s : Sched) (t : Tcb)
    → IsValid s
    → IsValidTask t
    → length s.tasks < 8
    → (s' : Sched) × (add_task s t ≡ some (length s.tasks, s'))
      × (get_task s' (length s.tasks) ≡ some (record t { pid = length s.tasks }))
      × ((p : ℕ) → p < length s.tasks → get_task s' p ≡ get_task s p)
      × (s'.cur ≡ s.cur)
      × IsValid s'
add_task-get_task s t v w h =
    let new : Tcb = record t { pid = length s.tasks } in
    let s' : Sched = record s { tasks = s.tasks ++ new ∷ [] } in
    let grown : length s'.tasks ≡ length s.tasks + 1 =
      length-append s.tasks (new ∷ []) ∙ omega arith in
    (
      s',
      add_task_lem s t h,
      get_task_lem s' (length s.tasks) (omega arith) ∙ get_elem?-append_last s.tasks new,
      (λ p k.
          get_task_lem s' p (omega arith)
          ∙ (get_elem?-append_left s.tasks (new ∷ []) p k ∙ sym (get_task_lem s p k))),
      refl,
      record {
        tasks = All-append IsValidTask s.tasks (new ∷ []) v.tasks (new_valid, tt);
        current = omega (arith, v);
        slots = omega arith;
      },
    )
  where
    new_valid : IsValidTask (record t { pid = length s.tasks })
    new_valid = record {
      counter_nonneg = w.counter_nonneg;
      counter_bounded = w.counter_bounded;
      priority_pos = w.priority_pos;
      priority_small = w.priority_small;
    }

-- A full table has no slot for another task: the source writes behind its array.
pub add_task_full : (s : Sched) (t : Tcb) → 8 ≤ length s.tasks → add_task s t ≡ none
unfolding add_task
add_task_full s t h = ground arith

-- The state of the task in a slot.
abbrev state_at : List Tcb → ℕ → Option TaskState
state_at [] i = none
state_at (t ∷ ts) zero = some t.state
state_at (t ∷ ts) (suc i) = state_at ts i

state_at-mark : (ts : List Tcb) (i : ℕ) → i < length ts → state_at (mark ts i) i ≡ some zombie
unfolding mark
state_at-mark [] i h = elim h [ ]
state_at-mark (t ∷ ts) zero h = refl
state_at-mark (t ∷ ts) (suc i) h = state_at-mark ts i (omega arith)

length-mark : (ts : List Tcb) (i : ℕ) → length (mark ts i) ≡ length ts
unfolding mark
length-mark [] i = refl
length-mark (t ∷ ts) zero = refl
length-mark (t ∷ ts) (suc i) = ap suc (length-mark ts i)

mark-IsValidTask : (ts : List Tcb) (i : ℕ) → All IsValidTask ts → All IsValidTask (mark ts i)
unfolding mark
mark-IsValidTask [] i a = tt
mark-IsValidTask (t ∷ ts) zero a = (ground arith, a.1)
mark-IsValidTask (t ∷ ts) (suc i) a = (a.0, mark-IsValidTask ts i a.1)

state_at-refill : (ts : List Tcb) (i : ℕ) → state_at (map refill ts) i ≡ state_at ts i
unfolding refill
state_at-refill [] i = refl
state_at-refill (t ∷ ts) zero = refl
state_at-refill (t ∷ ts) (suc i) = state_at-refill ts i

state_at-set :
    (ts : List Tcb) (j i : ℕ) (t : Tcb) (z : ℤ)
    → get_elem? ts j ≡ some t
    → state_at (set ts j (record t { counter = z })) i ≡ state_at ts i
state_at-set [] j i t z e = refl
state_at-set (u ∷ ts) zero zero t z e = let q : u ≡ t = cc in rw q refl
state_at-set (u ∷ ts) zero (suc i) t z e = refl
state_at-set (u ∷ ts) (suc j) zero t z e = refl
state_at-set (u ∷ ts) (suc j) (suc i) t z e = state_at-set ts j i t z e

state_at-get :
    (ts : List Tcb) (i : ℕ) (t : Tcb) → get_elem? ts i ≡ some t → state_at ts i ≡ some t.state
state_at-get [] i t e = cc
state_at-get (u ∷ ts) zero t e = let q : u ≡ t = cc in rw q refl
state_at-get (u ∷ ts) (suc i) t e = state_at-get ts i t e

state_at-Refilled : (ts us : List Tcb) (i : ℕ) → Refilled ts us → state_at us i ≡ state_at ts i
state_at-Refilled ts us i (inl e) = ap (λ l. state_at l i) e
state_at-Refilled ts us i (inr (e, b)) = ap (λ l. state_at l i) e ∙ state_at-refill ts i

-- A slot that holds a zombie is not chosen while anything runs.
zombie-Chosen :
    (ts : List Tcb) (n i : ℕ)
    → state_at ts i ≡ some zombie
    → Chosen n ts
    → (n ≢ i) ⊎ All (λ t. is_running t.state ≡ false) ts
zombie-Chosen ts n i e (inl (t, g, run, b, left)) = inl (λ same.
    clash t.state run (some_eq (sym (state_at-get ts n t g) ∙ (ap (state_at ts) same ∙ e))))
  where
    some_eq : some t.state ≡ some zombie → t.state ≡ zombie
    some_eq q = cc

    clash : (st : TaskState) → is_running st ≡ true → st ≡ zombie → ⊥
    clash running r q = cc
    clash waitting r q = cc
    clash zombie r q = cc
    clash dead r q = cc
zombie-Chosen ts n i e (inr (z, a)) = inr a

-- In a valid state, with fuel for two rounds, `ExitTask` of a task of the table returns a valid state,
-- in which the task that exits is not current unless no task runs.
pub exit_task_leaves :
    (fuel : ℕ) (s : Sched) (i : ℕ)
    → IsValid s
    → i < length s.tasks
    → (s' : Sched) × (sw : Option Switch) × (exit_task (suc (suc fuel)) s i ≡ some (s', sw))
      × IsValid s'
      × ((s'.cur ≢ i) ⊎ All (λ t. is_running t.state ≡ false) s'.tasks)
unfolding exit_task
exit_task_leaves fuel s i v h =
    let marked : Sched = record s { tasks = mark s.tasks i } in
    let valid : IsValid marked = record {
      tasks = mark-IsValidTask s.tasks i v.tasks;
      current = omega (arith, v, length-mark s.tasks i);
      slots = omega (arith, v, length-mark s.tasks i);
    } in
    let (t, s', sw, g, e, r) = schedule_total fuel marked valid in
    (
      s',
      sw,
      e,
      r.valid,
      zombie-Chosen s'.tasks s'.cur i
          (state_at-Refilled _ s'.tasks i r.refilled
            ∙ (state_at-set marked.tasks marked.cur i t (pos 0) g ∙ state_at-mark s.tasks i h))
          r.chosen,
    )
