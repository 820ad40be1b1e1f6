-- ===== src/Kernel.antt =====
-- Processes, their tree, scheduling and synchronisation, kernel memory, page tables and the console
-- (src/kernel, src/common/sem.c).
pub mod Sem
pub mod Pt
pub mod Sched
pub mod Mem
pub mod User
pub mod Proc
pub mod Console
