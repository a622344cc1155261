-- ===== src/Platforms.antt =====
-- src/platforms: the devices that a guest sees, and the board that dispatches to them.
pub mod VirtioGic
pub mod VirtioUart
pub mod Board
pub mod Serial
