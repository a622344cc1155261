-- ===== src/Arch/Trap/Tests.antt =====
-- The theorems about traps at concrete guests and syndromes.
use evisor.Prelude.{arith, false, refl, some, true, ◌*◌, ◌≡◌, ◌≢◌, ◌⊎◌}
use evisor.Prelude.Outcome.{panic}
use evisor.Arch.Sysregs.{actlr_el1}
use evisor.Arch.Trap.{
  Guest, trap_mcr_mrc, Syndrome, syndrome, handle_trap_system, handle_sync, memory_access_fault,
  memory_abort_failed, register_access,
}
use evisor.Arch.Trap.Access.{csselr_write_panics, zero_register}
use evisor.Arch.Trap.Decode.{Abort, IsAbort, IsSyndrome, encode_abort, handle_sync-encode_abort}
use mathlib.Core.Option

abbrev guest : Guest
guest = record {
  vcpu = record { regs = λ i. i * 3; sp = 0x1000; pc = 0x80; pstate = 0 };
  sysregs = λ _. 7;
  stat = record {
    irq_pending = false;
    fiq_pending = false;
    wfx_traps = 0;
    hvc_traps = 0;
    sysreg_traps = 0;
    page_faults = 0;
    mmios = 0;
  };
}

-- A write of the register 2 to ACTLR_EL1.
abbrev actlr : Syndrome
actlr = record { cond = 3; opc2 = 1; opc1 = 0; crn = 1; rt = 2; crm = 0; dir = 0 }

abbrev csselr : Syndrome
csselr = record { cond = 3; opc2 = 0; opc1 = 2; crn = 0; rt = 4; crm = 0; dir = 0 }

csselr-IsSyndrome : IsSyndrome csselr
csselr-IsSyndrome = record {
  cond = omega arith;
  opc2 = omega arith;
  opc1 = omega arith;
  crn = omega arith;
  rt = omega arith;
  crm = omega arith;
  dir = omega arith;
}

csselr_write : syndrome 0x308080 ≡ csselr
unfolding syndrome
csselr_write = refl

csselr_write_panics_run : handle_trap_system guest 0x308080 ≡ panic
csselr_write_panics_run = csselr_write_panics guest 0x308080 3 4 csselr_write

zero_register_run :
    (Option.map (λ (h : Guest). h.sysregs actlr_el1) (trap_mcr_mrc guest 1 0 1 31 0 0)
      ≡ some 0x1000)
    × (Option.map (λ (h : Guest). h.vcpu.sp) (trap_mcr_mrc guest 1 0 1 31 0 1) ≡ some 7)
zero_register_run = zero_register guest

-- A load of a word from the serial port.
abbrev load_abort : Abort
load_abort = record {
  isv = 1;
  sas = 2;
  sse = 0;
  srt = 3;
  sf = 0;
  ar = 0;
  middle = 0;
  wnr = 0;
  fault = 3;
  level = 2;
}

load_abort-IsAbort : IsAbort load_abort
load_abort-IsAbort = record {
  isv = omega arith;
  sas = omega arith;
  sse = omega arith;
  srt = omega arith;
  sf = omega arith;
  ar = omega arith;
  middle = omega arith;
  wnr = omega arith;
  fault = omega arith;
  level = omega arith;
}

handle_sync-encode_abort_example :
    ((load_abort.fault ≡ 1)
      × (handle_sync (encode_abort load_abort) 0x9000018 ≡ memory_access_fault 0x9000018))
    ⊎ ((load_abort.fault ≡ 3)
        × (handle_sync (encode_abort load_abort) 0x9000018 ≡ register_access 0x9000018 3 true))
    ⊎ ((load_abort.fault ≢ 1)
        × (load_abort.fault ≢ 3)
        × (handle_sync (encode_abort load_abort) 0x9000018 ≡ memory_abort_failed))
handle_sync-encode_abort_example = handle_sync-encode_abort 0x9000018 load_abort load_abort-IsAbort
