-- ===== src/Drivers.antt =====
-- src/drivers: the drivers of the devices of the machine.
pub mod Pl011
pub mod VirtioBlk
