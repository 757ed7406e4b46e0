-- ===== src/Vm.antt =====
-- pintos/vm: the supplemental page table, the frame table with its clock, and the swap area.
pub mod State
pub mod Frame
pub mod Clock
pub mod Swap
pub mod Pagedir
pub mod Evict
pub mod Claim
pub mod Page
mod Examples
