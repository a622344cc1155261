-- ===== src/Kernel/Sched.antt =====
-- src/kernel/sched/sched.h and sched_core.cc: the scheduler of vCPU tasks.
-- `tasks` are the first `count_tsks_` slots of `tsks_`, which are never null; `cur` is the slot
-- that `cur_tsk_` points to. `none` is undefined behaviour in the source (a slot that is not
-- there), and in `pick` also fuel that ran out.
pub mod Valid
pub mod Select
pub mod Terminate
pub mod Tick
pub mod Table
pub mod Fair
mod Tests
use evisor.Prelude.{
  ==_iff, Bool, Bool-cases, List, Option, Option-cases, [], ap, append-nil, append_assoc, arith,
  bit_and, bit_or, dec_le, dec_lt, false, fun_ext, get_elem?, get_elem?-set_ne, get_elem?-set_self,
  get_elem?-some, if◌then◌else◌, inl, inr, leb, leb→le, length, length-append, length-replicate,
  length-set, ltb, ltb→lt, lt→ltb, map, none, not, refl, replicate, set, some, suc, sym, take, true,
  u16_mod, u32_mod, u64_mod, u8_mod, update, zero, ℕ, ℕ_discrete, ◌%◌, ◌&&◌, ◌*◌, ◌++◌, ◌+◌, ◌-◌,
  ◌/◌, ◌<◌, ◌==◌, ◌^◌, ◌||◌, ◌↔◌, ◌∙◌, ◌∷◌, ◌≡◌, ◌≢◌, ◌≤◌, ◌⊎◌,
}
use evisor.Prelude.Int.{ℤ, pos, negsuc, ◌+ℤ◌, ◌-ℤ◌, ltb_ℤ}
use evisor.Kernel.Task.{VCpuContext, Tcb, TaskState, running, waitting, zombie, dead}

-- `kNrTasks`
abbrev pub nr_tasks : ℕ
nr_tasks = 8

pub record Sched : Type 0 where
  pub tasks : List Tcb
  pub cur : ℕ
  pub console_forwarded_pid : ℕ

-- The context switch that `SwitchTaskTo` asks the assembly code for: from slot to slot.
pub record Switch : Type 0 where
  pub from : ℕ
  pub next : ℕ

-- `kInitTask`; its vCPU context lies in memory that nothing initialises.
abbrev pub init_task : VCpuContext → Tcb
init_task vcpu = record {
  pid = 0;
  priority = pos 1;
  counter = pos 0;
  state = running;
  mm = record { page_table = 0; pages = 0 };
  stat = record {
    irq_pending = false;
    fiq_pending = false;
    wfx_traps = 0;
    hvc_traps = 0;
    sysreg_traps = 0;
    page_faults = 0;
    mmios = 0;
  };
  vcpu = vcpu;
}

-- `Init`; the timer is not part of the model.
abbrev pub init : VCpuContext → Sched
init vcpu = record { tasks = init_task vcpu ∷ []; cur = 0; console_forwarded_pid = 1 }

-- The `int` with a given 32-bit pattern.
abbrev pub signed : ℕ → ℤ
signed w = if ltb w (2 ^ 31) then pos w else negsuc (u32_mod - w - 1)

-- The value of a `long` stored in an `int`.
pub int32 : ℤ → ℤ
int32 (pos n) = signed (n % u32_mod)
int32 (negsuc n) = signed (u32_mod - 1 - n % u32_mod)

abbrev pub is_running : TaskState → Bool
is_running running = true
is_running waitting = false
is_running zombie = false
is_running dead = false

-- `counter >> 1` rounds down.
abbrev pub half : ℤ → ℤ
half (pos n) = pos (n / 2)
half (negsuc n) = negsuc (n / 2)

-- The first loop of `ScheduleInternal`, at slot `i` with the locals `c` and `next`.
pub select : ℤ → ℕ → ℕ → List Tcb → ℤ × ℕ
select c next i [] = (c, next)
select c next i (t ∷ ts) =
    let better = is_running t.state && ltb_ℤ c t.counter in
    select (if better then int32 t.counter else c) (if better then i else next) (suc i) ts

-- The body of its second loop.
pub refill : Tcb → Tcb
refill t = record t { counter = half t.counter +ℤ t.priority }

abbrev is_zero : ℤ → Bool
is_zero (pos zero) = true
is_zero (pos (suc n)) = false
is_zero (negsuc n) = false

-- Its `while (true)`: the slot chosen, and the tasks with their counters.
pub pick : ℕ → List Tcb → Option (ℕ × List Tcb)
pick zero ts = none
pick (suc fuel) ts =
    let (c, next) = select (negsuc 0) 0 0 ts in
    let again = pick fuel (map refill ts) in if is_zero c then again else some (next, ts)

pub switch_task_to : Sched → ℕ → Sched × Option Switch
switch_task_to s next =
    if s.cur == next
    then (s, none)
    else (record s { cur = next }, some (record { from = s.cur; next = next }))

pub schedule_internal : ℕ → Sched → Option (Sched × Option Switch)
schedule_internal fuel s = elim (pick fuel s.tasks) [
  | none ↦ none
  | some (next, ts) ↦ some (switch_task_to (record s { tasks = ts }) next)
]

-- `cur_tsk_->counter = v`
abbrev pub set_counter : Sched → Tcb → ℤ → Sched
set_counter s t v = record s { tasks = set s.tasks s.cur (record t { counter = v }) }

pub schedule : ℕ → Sched → Option (Sched × Option Switch)
schedule fuel s = elim (get_elem? s.tasks s.cur) [
  | none ↦ none
  | some t ↦ schedule_internal fuel (set_counter s t (pos 0))
]

pub sched_timer_handler : ℕ → Sched → Option (Sched × Option Switch)
sched_timer_handler fuel s = elim (get_elem? s.tasks s.cur) [
  | none ↦ none
  | some t ↦
      let left = t.counter -ℤ pos 1 in
      if ltb_ℤ (pos 0) left
      then some (set_counter s t left, none)
      else schedule_internal fuel (set_counter s t (pos 0))
]

-- `AddTask`: the ninth task would be written behind the array.
pub add_task : Sched → Tcb → Option (ℕ × Sched)
add_task s t =
    let pid = length s.tasks in
    if ltb pid nr_tasks
    then some (pid, record s { tasks = s.tasks ++ record t { pid = pid } ∷ [] })
    else none

-- `tsks_[i]->state = ZOMBIE` for the first slot that holds the task.
pub mark : List Tcb → ℕ → List Tcb
mark [] i = []
mark (t ∷ ts) zero = record t { state = zombie } ∷ ts
mark (t ∷ ts) (suc i) = t ∷ mark ts i

-- `ExitTask` of the task in slot `i`.
pub exit_task : ℕ → Sched → ℕ → Option (Sched × Option Switch)
exit_task fuel s i = schedule fuel (record s { tasks = mark s.tasks i })

-- `GetTask`: null for a pid that is too large.
unfoldable pub get_task : Sched → ℕ → Option Tcb
get_task s pid = if leb (length s.tasks) pid then none else get_elem? s.tasks pid

-- `GetCurrentTask`
unfoldable pub get_current_task : Sched → Option Tcb
get_current_task s = get_elem? s.tasks s.cur
