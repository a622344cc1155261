-- ===== src/Kernel.antt =====
-- src/kernel: the tasks, their scheduler and the change from and to a guest.
pub mod Task
pub mod Sched
pub mod Vm
pub mod Create
