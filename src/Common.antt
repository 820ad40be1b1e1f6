-- ===== src/Common.antt =====
-- What the whole kernel uses (src/common): memory, strings, the printing of numbers, lists, queues and red-black trees.
pub mod ListNode
pub mod Memory
pub mod Format
pub mod RbTree
