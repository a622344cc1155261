-- ===== src/Arch/Timer/Tests.antt =====
-- The theorem about the timer at the period of the scheduler, 1 ms of a clock of 62.5 MHz.
use evisor.Prelude.{◌%◌, ◌*◌, ◌+◌, ◌/◌, u64_mod}
use evisor.Arch.Timer.{Timer, handle_irqs, start}
use evisor.Arch.Timer.Period.{Ticks, start_lem}

abbrev timer : Timer
timer = record {
  cnthctl = 3;
  cntvoff = 0;
  cnthp_ctl = 2;
  cnthp_cval = 0;
  next_counter_value = 0;
  interval_us = 0;
}

start_lem_example :
    Ticks timer
      (handle_irqs 3 (start 1000 62500000 0xfffffffffffffff0 timer))
      (0xfffffffffffffff0 + (3 + 1) * (1000 * 62500000 % u64_mod / 1000000))
start_lem_example = start_lem 1000 62500000 0xfffffffffffffff0 3 timer
