-- ===== src/Filesys.antt =====
-- pintos/filesys: files as ranges of sectors on a block device, and the map of free sectors.
pub mod Inode
pub mod File
pub mod FreeMap
