-- ===== src/Arch/Trap/System.antt =====
-- src/arch/arm64/irq/trap.cc: a trapped access to a system register, from its syndrome on.
use evisor.Prelude.{Option, if◌then◌else◌, u64_mod, ◌%◌, ◌+◌, ◌==◌, ◌≡◌}
use evisor.Prelude.Outcome.{ok}
use evisor.Arch.Sysregs.{Sysreg}
use evisor.Arch.Trap.{Guest, Syndrome, find, handle_trap_system, reads, writes}
use evisor.Arch.Trap.Access.{IsAccess}
use evisor.Arch.Trap.Decode.{encode}

-- The register that the tables name for an access.
abbrev pub emulated : Syndrome → Option Sysreg
emulated s = find (if s.dir == 0 then writes else reads) s.opc1 s.crn s.crm s.opc2

-- The guest with one more trap counted.
abbrev pub one_trap_more : Guest → Guest
one_trap_more g = record g {
  stat = record g.stat { sysreg_traps = (g.stat.sysreg_traps + 1) % u64_mod };
}

-- The handler emulates the access to `r`: the trap is counted, and the access is done.
abbrev pub Emulates : Guest → Syndrome → Sysreg → Type 0
Emulates g s r =
    (g' : Guest) × (handle_trap_system g (encode s) ≡ ok g')
    × IsAccess (one_trap_more g) s.rt s.dir r g'
