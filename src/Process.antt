-- ===== src/Process.antt =====
-- pintos/userprog: what a process asks of the kernel.
pub mod Fault
pub mod Arguments
pub mod Load
pub mod Syscall
