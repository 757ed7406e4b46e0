-- ===== src/Clib.antt =====
-- pintos/lib: the part of the C library that the kernel is built with.
pub mod Strings
pub mod Stdlib
