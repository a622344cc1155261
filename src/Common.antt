-- ===== src/Common.antt =====
-- src/common: the containers and the C library subset that the rest of the program uses.
pub mod Queue
pub mod Printf
pub mod LinkedList
pub mod Cstring
