-- ===== src/Arch.antt =====
-- src/arch/arm64: traps from a guest, the interrupt controller and the timer.
pub mod Gic
pub mod Mmu
pub mod Sysregs
pub mod Timer
pub mod Trap
