-- ===== src/Kernel/Sched/Fair.antt =====
-- Timer interrupts in a row: no running task waits for ever.
use evisor.Prelude.{
  ==_ne, All-get, List, Option, [], ap, arith, false, get_elem?, get_elem?-set_ne,
  get_elem?-set_self, get_elem?-some, if◌then◌else◌, inl, inr, map, none, refl, set, some, subst,
  suc, sym, true, zero, ℕ, ℕ_discrete, ◌*◌, ◌+◌, ◌<◌, ◌==◌, ◌∙◌, ◌∷◌, ◌≡◌, ◌≢◌, ◌≤◌, ◌⊎◌,
}
use evisor.Prelude.Int.{pos, pos_part, ◌-ℤ◌, ◌≤ℤ◌}
use evisor.Kernel.Task.{Tcb}
use evisor.Kernel.Sched.{Sched, Switch, is_running, refill, set_counter, sched_timer_handler}
use evisor.Kernel.Sched.Valid.{IsValid, IsValidTask, refill-IsValidTask}
use evisor.Kernel.Sched.Terminate.{Chosen}
use evisor.Kernel.Sched.Tick.{Scheduled, sched_timer_handler_total}

-- The state after `n` timer interrupts, each with fuel for the two rounds of the selection.
unfoldable pub ticks : ℕ → Sched → Option Sched
ticks zero s = some s
ticks (suc n) s = elim (sched_timer_handler 2 s) [ none ↦ none | some (s', sw) ↦ ticks n s' ]

-- The time that all tasks have left.
total : List Tcb → ℕ
total [] = 0
total (t ∷ ts) = pos_part t.counter + total ts

-- 1 where the current task has used its time up.
abbrev spent : Option Tcb → ℕ
spent none = 0
spent (some t) = if pos_part t.counter == 0 then 1 else 0

-- How long a task with time left may have to wait.
abbrev measure : Sched → ℕ
measure s = 2 * total s.tasks + spent (get_elem? s.tasks s.cur)

total-set :
    (ts : List Tcb) (i : ℕ) (t u : Tcb)
    → get_elem? ts i ≡ some t
    → total (set ts i u) + pos_part t.counter ≡ total ts + pos_part u.counter
unfolding total
total-set [] i t u e = cc
total-set (x ∷ ts) zero t u e = let same : x ≡ t = cc in rw same (omega arith)
total-set (x ∷ ts) (suc i) t u e = omega (arith, total-set ts i t u e)

get_elem?-map :
    (f : Tcb → Tcb) (ts : List Tcb) (i : ℕ) (t : Tcb)
    → get_elem? ts i ≡ some t
    → get_elem? (map f ts) i ≡ some (f t)
get_elem?-map f [] i t e = cc
get_elem?-map f (x ∷ ts) zero t e = cc
get_elem?-map f (x ∷ ts) (suc i) t e = get_elem?-map f ts i t e

spent-timed : (o : Option Tcb) (t : Tcb) → o ≡ some t → 0 < pos_part t.counter → spent o ≡ 0
spent-timed o t e left = rw (e, ==_ne (pos_part t.counter) 0 (omega arith)) refl

spent-cases : (t : Tcb) → 1 ≤ pos_part t.counter + spent (some t)
spent-cases t = ground arith

-- Where a task runs, the one that was chosen has time left.
Chosen-timed :
    (ts : List Tcb) (n k : ℕ) (t : Tcb)
    → get_elem? ts k ≡ some t
    → is_running t.state ≡ true
    → Chosen n ts
    → spent (get_elem? ts n) ≡ 0
Chosen-timed ts n k t there runs (inl (u, here, run, b, left)) =
    spent-timed (get_elem? ts n) u here left
Chosen-timed ts n k t there runs (inr (z, idle)) =
    absurd (clash (sym runs ∙ All-get (λ t. is_running t.state ≡ false) ts k t idle there))
  where
    clash : true ≡ false → ⊥
    clash e = cc

-- What a timer interrupt does for a running task that is not current: it is current, or the wait is
-- shorter, or its time was used up and it has got some.
record Nearer (s : Sched) (k : ℕ) (t : Tcb) (s' : Sched) (t' : Tcb) : Type 0 where
  pub valid : IsValid s'
  pub there : get_elem? s'.tasks k ≡ some t'
  pub runs : is_running t'.state ≡ true
  pub progress :
      ((t'.counter ≡ t.counter) × (measure s' < measure s))
      ⊎ ((pos_part t.counter ≡ 0) × (0 < pos_part t'.counter))

-- While the current task keeps the processor.
kept_lem :
    (s : Sched) (k : ℕ) (c t : Tcb)
    → get_elem? s.tasks s.cur ≡ some c
    → get_elem? s.tasks k ≡ some t
    → is_running t.state ≡ true
    → s.cur ≢ k
    → 1 < pos_part c.counter
    → IsValidTask c
    → IsValid (set_counter s c (c.counter -ℤ pos 1))
    → Nearer s k t (set_counter s c (c.counter -ℤ pos 1)) t
unfolding ◌-ℤ◌
kept_lem s k c t here there runs ne more w v =
    let u = record c { counter = c.counter -ℤ pos 1 } in
    let sum = total-set s.tasks s.cur c u here in
    let less : pos_part u.counter + 1 ≡ pos_part c.counter = ground arith in
    let self : get_elem? (set s.tasks s.cur u) s.cur ≡ some u =
      get_elem?-set_self s.tasks s.cur u (get_elem?-some s.tasks s.cur c here) in
    let idle : spent (get_elem? (set s.tasks s.cur u) s.cur) ≡ 0 =
      spent-timed (get_elem? (set s.tasks s.cur u) s.cur) u self (omega (arith, less)) in
    record {
      valid = v;
      there = get_elem?-set_ne s.tasks s.cur k u ne ∙ there;
      runs = runs;
      progress = inl (refl, omega (arith, sum, less, idle));
    }

-- Where the current task's time is up and some task runs.
switched_lem :
    (s s' : Sched) (sw : Option Switch) (k : ℕ) (c t : Tcb)
    → get_elem? s.tasks s.cur ≡ some c
    → get_elem? s.tasks k ≡ some t
    → is_running t.state ≡ true
    → s.cur ≢ k
    → IsValidTask t
    → Scheduled (set_counter s c (pos 0)) s' sw
    → (t' : Tcb) × Nearer s k t s' t'
unfolding refill
switched_lem s s' sw k c t here there runs ne w sch = elim sch.refilled [
  | inl e ↦
      let there' : get_elem? s'.tasks k ≡ some t = rw e kept in
      (
        t,
        record {
          valid = sch.valid;
          there = there';
          runs = runs;
          progress = inl (
            refl,
            omega (
              arith,
              ap total e,
              total-set s.tasks s.cur c u here,
              Chosen-timed s'.tasks s'.cur k t there' runs sch.chosen,
              ap spent here,
              spent-cases c,
            ),
          );
        },
      )
  | inr (e, b) ↦ (
    refill t,
    record {
      valid = sch.valid;
      there = rw e (get_elem?-map refill (set s.tasks s.cur u) k t kept);
      runs = runs;
      progress = inr (
        up (
            All-get (λ t. is_running t.state ≡ true → t.counter ≤ℤ pos 0) (set s.tasks s.cur u) k t
              b kept runs),
        (refill-IsValidTask t w).1,
      );
    },
  )
]
  where
    u : Tcb
    u = record c { counter = pos 0 }

    kept : get_elem? (set s.tasks s.cur u) k ≡ some t
    kept = get_elem?-set_ne s.tasks s.cur k u ne ∙ there

    up : t.counter ≤ℤ pos 0 → pos_part t.counter ≡ 0
    up h = omega (arith, w.counter_nonneg)

tick_lem :
    (s : Sched) (k : ℕ) (t : Tcb)
    → IsValid s
    → get_elem? s.tasks k ≡ some t
    → is_running t.state ≡ true
    → s.cur ≢ k
    → (s' : Sched) × (sw : Option Switch) × (t' : Tcb) × (sched_timer_handler 2 s ≡ some (s', sw))
      × Nearer s k t s' t'
tick_lem s k t v there runs ne =
    let (c, s', sw, here, e, ticked) = sched_timer_handler_total 0 s v in
    elim ticked [
      | inl (more, left, quiet, valid) ↦
          let w = All-get IsValidTask s.tasks s.cur c v.tasks here in
          (
            set_counter s c (c.counter -ℤ pos 1),
            sw,
            t,
            e ∙ ap (λ x. some (x, sw)) left,
            kept_lem s k c t here there runs ne more w (subst IsValid left valid),
          )
      | inr (little, sch) ↦
          let w = All-get IsValidTask s.tasks k t v.tasks there in
          let (t', near) = switched_lem s s' sw k c t here there runs ne w sch in
          (s', sw, t', e, near)
    ]

-- The task in slot `k` is current after some number of timer interrupts.
abbrev pub Arrives : Sched → ℕ → Type 0
Arrives s k = (n : ℕ) × (s' : Sched) × (ticks n s ≡ some s') × (s'.cur ≡ k) × IsValid s'

Arrives-later :
    (s s' : Sched) (sw : Option Switch) (k : ℕ)
    → sched_timer_handler 2 s ≡ some (s', sw)
    → Arrives s' k
    → Arrives s k
unfolding ticks
Arrives-later s s' sw k e (n, s'', run, cur, v) = (suc n, s'', rw (e, ticks) run, cur, v)

-- A task with time left waits no longer than the measure says.
Arrives-timed :
    (m : ℕ) (s : Sched) (k : ℕ) (t : Tcb)
    → measure s < m
    → IsValid s
    → get_elem? s.tasks k ≡ some t
    → is_running t.state ≡ true
    → 0 < pos_part t.counter
    → Arrives s k
unfolding ticks
Arrives-timed zero s k t lt v there runs left = elim lt [ ]
Arrives-timed (suc m) s k t lt v there runs left = elim (ℕ_discrete s.cur k) [
  | yes e ↦ (0, s, refl, e, v)
  | no ne ↦
      let (s', sw, t', e, near) = tick_lem s k t v there runs ne in
      Arrives-later s s' sw k e (elim near.progress [
        | inl (same, less) ↦
            Arrives-timed m s' k t' (omega (arith, less)) near.valid near.there near.runs
              (rw same left)
        | inr (out, got) ↦ absurd (omega arith)
      ])
]

Arrives-any :
    (m : ℕ) (s : Sched) (k : ℕ) (t : Tcb)
    → measure s < m
    → IsValid s
    → get_elem? s.tasks k ≡ some t
    → is_running t.state ≡ true
    → Arrives s k
unfolding ticks
Arrives-any zero s k t lt v there runs = elim lt [ ]
Arrives-any (suc m) s k t lt v there runs = elim (ℕ_discrete s.cur k) [
  | yes e ↦ (0, s, refl, e, v)
  | no ne ↦
      let (s', sw, t', e, near) = tick_lem s k t v there runs ne in
      Arrives-later s s' sw k e (elim near.progress [
        | inl (same, less) ↦
            Arrives-any m s' k t' (omega (arith, less)) near.valid near.there near.runs
        | inr (out, got) ↦
            Arrives-timed (suc (measure s')) s' k t' (omega arith) near.valid near.there near.runs
              got
      ])
]

-- In a valid state, every running task is the current one after finitely many timer interrupts, each
-- of which returns, when nothing but the timer happens; the state is valid then.
pub ticks_reach :
    (s : Sched) (k : ℕ) (t : Tcb)
    → IsValid s
    → get_elem? s.tasks k ≡ some t
    → is_running t.state ≡ true
    → Arrives s k
ticks_reach s k t v there runs = Arrives-any (suc (measure s)) s k t (omega arith) v there runs
