-- ===== src/Mm.antt =====
-- src/mm: the three page allocators and the page tables of the guests.
pub mod KernelHeap
pub mod New
pub mod UserHeap
pub mod Uncached
pub mod PgTable
pub mod Fault
