-- ===== src/Filesys/Inode/Content.antt =====
-- The abstract view of a file: its bytes.
use pintos_lab.Base.{ℕ, ◌+◌, ◌/◌, ◌%◌}
use pintos_lab.Filesys.Inode.{Device, Inode}

-- Byte `i` of the file's data.
abbrev pub content : Device → Inode → ℕ → ℕ
content disk inode i = disk (inode.start + i / 512) (i % 512)
