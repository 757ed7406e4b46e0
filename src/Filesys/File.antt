-- ===== src/Filesys/File.antt =====
-- pintos/filesys/file.c: open files, each with its position, on inodes that they share.
pub mod Counts
pub mod Shared
pub mod Step
pub mod Reach
pub mod Examples
use pintos_lab.Base.{
  ℕ, ◌+◌, ◌^◌, Bool, true, false, not, Option, none, some, ltb, ◌==◌, if◌then◌else◌, ◌>>=◌, ◌>>◌,
  assert, List, ◌∷◌,
}
use pintos_lab.Filesys.Inode.{
  Bytes, Device, Inode, inode_read_at, inode_write_at, inode_deny_write, inode_allow_write,
  inode_reopen, inode_close,
}

-- `struct file`; `inode` is the address of the inode.
pub record File : Type 0 where
  pub inode : ℕ
  pub pos : ℕ
  pub deny_write : Bool

-- The inodes, by their addresses; an inode that nobody has opened is not in memory.
abbrev pub Inodes : Type 0
Inodes = ℕ → Inode

abbrev pub set_inode : Inodes → ℕ → Inode → Inodes
set_inode inodes a inode = λ b. if a == b then inode else inodes b

abbrev pub new_file : ℕ → File
new_file inode = record { inode = inode; pos = 0; deny_write = false }

-- `file_open` of an inode that its caller has opened; `malloc_ok` says whether there is memory.
unfoldable pub file_open : Bool → ℕ → Inodes → Option File × Inodes
file_open true inode inodes = (some (new_file inode), inodes)
file_open false inode inodes = (none, set_inode inodes inode (inode_close (inodes inode)))

unfoldable pub file_reopen : Bool → File → Inodes → Option File × Inodes
file_reopen malloc_ok file inodes =
    file_open malloc_ok file.inode (set_inode inodes file.inode (inode_reopen (inodes file.inode)))

unfoldable pub file_deny_write : File → Inodes → Option (File × Inodes)
file_deny_write file inodes = if file.deny_write then some (file, inodes) else (do
  inode ← inode_deny_write (inodes file.inode)
  some (record file { deny_write = true }, set_inode inodes file.inode inode))

unfoldable pub file_allow_write : File → Inodes → Option (File × Inodes)
file_allow_write file inodes =
    if file.deny_write
    then (do
      inode ← inode_allow_write (inodes file.inode)
      some (record file { deny_write = false }, set_inode inodes file.inode inode))
    else some (file, inodes)

-- `file_close` of a file: the inodes after.
unfoldable pub file_close : File → Inodes → Option Inodes
file_close file inodes = do
  (file', inodes') ← file_allow_write file inodes
  some (set_inode inodes' file'.inode (inode_close (inodes' file'.inode)))

-- A position of 2 ^ 31 or more is negative as an `off_t`.
unfoldable pub file_seek : File → ℕ → Option File
file_seek file new_pos = do assert (ltb new_pos (2 ^ 31)); some (record file { pos = new_pos })

-- The number of bytes read, the buffer, and the file with its position advanced.
unfoldable pub file_read : Bool → Device → Inodes → File → Bytes → ℕ → ℕ × Bytes × File
file_read malloc_ok disk inodes file buffer size =
    let (bytes_read, buffer') =
      inode_read_at malloc_ok disk (inodes file.inode) buffer size file.pos in
    (bytes_read, buffer', record file { pos = file.pos + bytes_read })

-- The number of bytes written, the device, and the file with its position advanced.
unfoldable pub file_write : Bool → Inodes → File → Bytes → ℕ → Device → ℕ × Device × File
file_write malloc_ok inodes file buffer size disk =
    let (bytes_written, disk') =
      inode_write_at malloc_ok (inodes file.inode) buffer size file.pos disk in
    (bytes_written, disk', record file { pos = file.pos + bytes_written })

-- The open files with the one that `file_open` returned, if any.
unfoldable pub with_new : Option File → List File → List File
with_new none fs = fs
with_new (some f) fs = f ∷ fs
