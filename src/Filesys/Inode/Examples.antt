-- ===== src/Filesys/Inode/Examples.antt =====
-- Runs of the reads and writes of an inode.
use pintos_lab.Base.{◌+◌, ◌*◌, ◌≡◌, refl, true, false, ltb, if◌then◌else◌}
use pintos_lab.Filesys.Inode.{Bytes, Device, Inode, inode_read_at, inode_write_at}
use pintos_lab.Filesys.Inode.Content.{content}
use pintos_lab.Filesys.Inode.Read.{granted, inode_read_at_lem}
use pintos_lab.Filesys.Inode.Write.{written, inode_write_at_lem, write-read}

-- A file of 700 bytes in the sectors 5 and 6, open once.
abbrev inode : Inode
inode = record {
  sector = 3;
  open_cnt = 1;
  removed = false;
  deny_write_cnt = 0;
  start = 5;
  length = 700;
}

-- Byte `j` of sector `s` is 1000 * s + j.
abbrev disk : Device
disk = λ s. λ j. 1000 * s + j

abbrev letters : Bytes
letters = λ i. 70 + i

abbrev zeroes : Bytes
zeroes = λ i. 0

-- 8 bytes over the border of the two sectors
after_border : (inode_read_at true disk inode zeroes 8 508).1 5 ≡ 6001
unfolding inode_read_at pintos_lab.Filesys.Inode.read_loop pintos_lab.Filesys.Inode.byte_to_sector
after_border = refl

-- A read of 100 bytes from 690 on ends with the file.
at_end : (inode_read_at true disk inode zeroes 100 690).0 ≡ 10
unfolding inode_read_at pintos_lab.Filesys.Inode.read_loop
at_end = refl

inode_read_at_lem_example :
    ((inode_read_at true disk inode zeroes 100 690).0 ≡ granted inode 100 690)
    × ((inode_read_at true disk inode zeroes 100 690).1 3
        ≡ (if ltb 3 (granted inode 100 690) then content disk inode (690 + 3) else zeroes 3))
inode_read_at_lem_example = inode_read_at_lem disk inode 100 690 3 zeroes

inode_write_at_lem_example :
    ((inode_write_at true inode letters 8 508 disk).0 ≡ granted inode 8 508)
    × (content (inode_write_at true inode letters 8 508 disk).1 inode 513
        ≡ written (content disk inode) letters 0 508 (granted inode 8 508) 513)
    × ((inode_write_at true inode letters 8 508 disk).1 7 20 ≡ disk 7 20)
inode_write_at_lem_example = inode_write_at_lem inode letters 8 508 513 7 20 disk refl refl

write-read_example :
    ((inode_read_at true (inode_write_at true inode letters 8 508 disk).1 inode zeroes 8 508).0
      ≡ (inode_write_at true inode letters 8 508 disk).0)
    × ((inode_read_at true (inode_write_at true inode letters 8 508 disk).1 inode zeroes 8 508).1 6
        ≡ (if ltb 6 (granted inode 8 508) then letters 6 else zeroes 6))
write-read_example = write-read inode letters 8 508 6 disk zeroes refl
