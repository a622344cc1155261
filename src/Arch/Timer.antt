-- ===== src/Arch/Timer.antt =====
-- src/arch/arm64/arm_generic_timer.cc: the timer that ticks the scheduler. Its registers hold what was
-- written to them; the counter and its frequency are arguments of the call that reads them.
pub mod Period
mod Tests
use evisor.Prelude.{
  Bool, bit_and, bit_or, false, if◌then◌else◌, true, u64_mod, zero, suc, ℕ, ◌%◌, ◌*◌, ◌+◌, ◌-◌, ◌/◌,
  ◌^◌,
}

-- The class, and the system registers that it writes.
pub record Timer : Type 0 where
  pub cnthctl : ℕ
  pub cntvoff : ℕ
  pub cnthp_ctl : ℕ
  pub cnthp_cval : ℕ
  pub next_counter_value : ℕ
  pub interval_us : ℕ

-- `val |= bit` and `val &= ~bit` in 64 bits
abbrev pub set_bits : ℕ → ℕ → ℕ
set_bits val mask = bit_or val mask

abbrev pub clear_bits : ℕ → ℕ → ℕ
clear_bits val mask = bit_and val (u64_mod - 1 - mask)

-- `SetCompare`
abbrev pub set_compare : ℕ → Timer → Timer
set_compare val t = record t { cnthp_cval = val }

-- `Enable`
unfoldable pub enable : Bool → Timer → Timer
enable on t = record t {
  cnthp_ctl = if on then set_bits t.cnthp_ctl (2 ^ 0) else clear_bits t.cnthp_ctl (2 ^ 0);
}

-- `SetIrqMask`
unfoldable pub set_irq_mask : Bool → Timer → Timer
set_irq_mask mask t = record t {
  cnthp_ctl = if mask then set_bits t.cnthp_ctl (2 ^ 1) else clear_bits t.cnthp_ctl (2 ^ 1);
}

-- `Init`
abbrev pub init : Timer → Timer
init t = record {
  cnthctl = set_bits t.cnthctl (bit_or (2 ^ 1) (2 ^ 0));
  cntvoff = 0;
  cnthp_ctl = 0;
  cnthp_cval = u64_mod - 1;
  next_counter_value = 0;
  interval_us = 0;
}

-- `Start`, at the frequency `cntfrq`, when the counter reads `cur`; `interval_us` counts ticks.
unfoldable pub start : ℕ → ℕ → ℕ → Timer → Timer
unfolding enable set_irq_mask
start interval_us cntfrq cur t =
    let ticks = interval_us * cntfrq % u64_mod / 1000000 in
    let next = (cur + ticks) % u64_mod in
    set_irq_mask false
      (enable true (set_compare next (record t { interval_us = ticks; next_counter_value = next })))

-- `Stop`
unfoldable pub stop : Timer → Timer
unfolding enable set_irq_mask
stop t = set_compare (u64_mod - 1) (set_irq_mask true (enable false t))

-- `HandleIrq`
unfoldable pub handle_irq : Timer → Timer
handle_irq t =
    let next = (t.next_counter_value + t.interval_us) % u64_mod in
    set_compare next (record t { next_counter_value = next })

-- `GetIStatus`
abbrev pub get_istatus : Timer → ℕ
get_istatus t = t.cnthp_ctl / 2 ^ 2 % 2

-- Some interrupts in a row.
unfoldable pub handle_irqs : ℕ → Timer → Timer
handle_irqs zero t = t
handle_irqs (suc n) t = handle_irqs n (handle_irq t)
