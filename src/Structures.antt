-- ===== src/Structures.antt =====
-- pintos/lib/kernel: the data structures that the kernel's parts share.
pub mod LinkedList
pub mod HashTable
