-- ===== src/Arch/Timer/Period.antt =====
-- src/arch/arm64/arm_generic_timer.cc: the timer interrupts at a fixed period.
use evisor.Prelude.{
  ap, arith, bit_and, bit_or, refl, suc, u64_mod, zero, ℕ, ◌%◌, ◌*◌, ◌+◌, ◌-◌, ◌/◌, ◌<◌, ◌^◌, ◌∙◌,
  ◌≡◌, ◌≤◌,
}
use Prim.Native.Nat.{max, min}
use evisor.Prelude.Digits.{bit, bit-le-one, bit-bit_or, bit-bit_and, bit-complement, bit-high}
use evisor.Arch.Timer.{Timer, handle_irq, handle_irqs, start}

-- The control register that lets the timer interrupt: ENABLE (bit 0) set and IMASK (bit 1) clear.
pub record Ticks (t t' : Timer) (now : ℕ) : Type 0 where
  pub enabled : bit t'.cnthp_ctl 0 ≡ 1
  pub unmasked : bit t'.cnthp_ctl 1 ≡ 0
  pub others : (k : ℕ) → 2 ≤ k → k < 64 → bit t'.cnthp_ctl k ≡ bit t.cnthp_ctl k
  pub compare : t'.cnthp_cval ≡ now % u64_mod

-- Interrupts move the compare value by the interval, and leave the control register.
handle_irqs_lem :
    (n now : ℕ) (t : Timer)
    → t.next_counter_value ≡ now % u64_mod
    → t.cnthp_cval ≡ now % u64_mod
    → ((handle_irqs n t).cnthp_cval ≡ (now + n * t.interval_us) % u64_mod)
      × ((handle_irqs n t).cnthp_ctl ≡ t.cnthp_ctl)
unfolding handle_irqs handle_irq
handle_irqs_lem zero now t next val = (omega arith, refl)
handle_irqs_lem (suc n) now t next val =
    let step : (t.next_counter_value + t.interval_us) % u64_mod ≡ (now + t.interval_us) % u64_mod =
      omega arith in
    let (compare, control) = handle_irqs_lem n (now + t.interval_us) (handle_irq t) step step in
    let sum : now + t.interval_us + n * t.interval_us ≡ now + suc n * t.interval_us = omega arith in
    (compare ∙ ap (λ v. v % u64_mod) sum, control)

-- A word with bit 0 set and bit 1 cleared.
abbrev control : ℕ → ℕ
control c = bit_and (bit_or c (2 ^ 0)) (u64_mod - 1 - 2 ^ 1)

bit-control : (c k : ℕ) → k < 64 → bit (control c) k ≡ min (max (bit c k) (bit 1 k)) (1 - bit 2 k)
bit-control c k h =
    bit-bit_and k (bit_or c 1) (u64_mod - 1 - 2)
    ∙ ap (λ x. min x (bit (u64_mod - 1 - 2) k)) (bit-bit_or k c 1)
    ∙ ap (λ x. min (max (bit c k) (bit 1 k)) x) (bit-complement 64 k 2 (omega arith) h)

-- After `Start` at the time `cur`, and after each of the interrupts that follow, the timer is
-- enabled and not masked, the other bits of its control register are what they were, and its compare
-- value lies a whole number of intervals behind `cur`, one more than there were interrupts: the
-- period is the interval, whenever the interrupts are handled.
pub start_lem :
    (interval_us cntfrq cur n : ℕ) (t : Timer)
    → Ticks t
        (handle_irqs n (start interval_us cntfrq cur t))
        (cur + (n + 1) * (interval_us * cntfrq % u64_mod / 1000000))
unfolding start
start_lem interval_us cntfrq cur n t =
    let ticks : ℕ = interval_us * cntfrq % u64_mod / 1000000 in
    let (compare, kept) =
      handle_irqs_lem n (cur + ticks) (start interval_us cntfrq cur t) refl refl in
    let sum : cur + ticks + n * ticks ≡ cur + (n + 1) * ticks = omega arith in
    record {
      enabled = ap (λ c. bit c 0) kept ∙ bit-control t.cnthp_ctl 0 (omega arith) ∙ omega arith;
      unmasked = ap (λ c. bit c 1) kept ∙ bit-control t.cnthp_ctl 1 (omega arith) ∙ omega arith;
      others = λ k low high.
          ap (λ c. bit c k) kept
          ∙ bit-control t.cnthp_ctl k high
          ∙ omega (
            arith,
            bit-high 2 k 1 (omega arith) low,
            bit-high 2 k 2 (omega arith) low,
            bit-le-one k t.cnthp_ctl,
          );
      compare = compare ∙ ap (λ v. v % u64_mod) sum;
    }
