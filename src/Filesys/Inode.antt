-- ===== src/Filesys/Inode.antt =====
-- pintos/filesys/inode.c: reads and writes of an inode by sectors of 512 bytes, its openers and its
-- writers. An `off_t` is a number that is not negative; where the source has a negative rest of a
-- file or of a request, subtraction stops at 0, and the loops end there as they do in the source.
pub mod Content
pub mod Read
pub mod Write
pub mod Examples
use pintos_lab.Base.{
  ℕ, zero, suc, ◌+◌, ◌-◌, ◌*◌, ◌/◌, ◌%◌, ◌^◌, Bool, true, false, not, ◌&&◌, ◌||◌, Option, none,
  some, ltb, leb, ◌==◌, if◌then◌else◌, assert, ◌>>=◌, ◌>>◌,
}

-- The bytes of a sector, of a buffer, and of the sectors of a device.
abbrev pub Bytes : Type 0
Bytes = ℕ → ℕ

abbrev pub Device : Type 0
Device = ℕ → Bytes

-- `struct inode`, with `start` and `length` of the `struct inode_disk` in it
pub record Inode : Type 0 where
  pub sector : ℕ
  pub open_cnt : ℕ
  pub removed : Bool
  pub deny_write_cnt : ℕ
  pub start : ℕ
  pub length : ℕ

abbrev pub bytes_to_sectors : ℕ → ℕ
bytes_to_sectors size = (size + 511) / 512

-- `byte_to_sector`; -1 beyond the end
unfoldable pub byte_to_sector : Inode → ℕ → ℕ
byte_to_sector inode pos = if ltb pos inode.length then inode.start + pos / 512 else 2 ^ 32 - 1

abbrev pub min : ℕ → ℕ → ℕ
min a b = if ltb a b then a else b

-- The number of bytes to copy in a round.
abbrev pub chunk_size : Inode → ℕ → ℕ → ℕ
chunk_size inode size offset = min size (min (inode.length - offset) (512 - offset % 512))

-- `memcpy (to + at, from + start, n)`
abbrev pub memcpy : Bytes → ℕ → Bytes → ℕ → ℕ → Bytes
memcpy to at from start n =
    λ i. if leb at i && ltb i (at + n) then from (start + (i - at)) else to i

abbrev pub block_write : Device → ℕ → Bytes → Device
block_write disk sector bytes = λ s. if sector == s then bytes else disk s

-- A round that copies a whole sector needs no bounce buffer.
abbrev pub is_whole : ℕ → ℕ → Bool
is_whole sector_ofs chunk = (sector_ofs == 0) && (chunk == 512)

-- The loop of `inode_read_at`, in at most as many rounds as there are bytes to read; `malloc_ok`
-- says whether there is memory for the bounce buffer.
unfoldable pub read_loop : ℕ → Bool → Device → Inode → ℕ → ℕ → ℕ → Bytes → ℕ × Bytes
read_loop zero malloc_ok disk inode size offset bytes_read buffer = (bytes_read, buffer)
read_loop (suc n) malloc_ok disk inode size offset bytes_read buffer =
    let chunk = chunk_size inode size offset in
    let sector = disk (byte_to_sector inode offset) in
    let rest =
      read_loop n malloc_ok disk inode (size - chunk) (offset + chunk) (bytes_read + chunk)
        (memcpy buffer bytes_read sector (offset % 512) chunk) in
    if (chunk == 0) || (not (is_whole (offset % 512) chunk) && not malloc_ok)
    then (bytes_read, buffer)
    else rest

-- The number of bytes read, and the buffer after.
unfoldable pub inode_read_at : Bool → Device → Inode → Bytes → ℕ → ℕ → ℕ × Bytes
inode_read_at malloc_ok disk inode buffer size offset =
    read_loop size malloc_ok disk inode size offset 0 buffer

-- The sector that is written in a round.
abbrev pub new_sector : Device → ℕ → ℕ → ℕ → Bytes → ℕ → Bytes
new_sector disk sector sector_ofs chunk buffer bytes_written =
    if is_whole sector_ofs chunk
    then (λ i. buffer (bytes_written + i))
    else (let bounce =
          if ltb 0 sector_ofs || ltb chunk (512 - sector_ofs) then disk sector else (λ i. 0) in
        memcpy bounce sector_ofs buffer bytes_written chunk)

-- The loop of `inode_write_at`.
unfoldable pub write_loop : ℕ → Bool → Inode → Bytes → ℕ → ℕ → ℕ → Device → ℕ × Device
write_loop zero malloc_ok inode buffer size offset bytes_written disk = (bytes_written, disk)
write_loop (suc n) malloc_ok inode buffer size offset bytes_written disk =
    let chunk = chunk_size inode size offset in
    let sector = byte_to_sector inode offset in
    let rest =
      write_loop n malloc_ok inode buffer (size - chunk) (offset + chunk) (bytes_written + chunk) (
        block_write disk sector
          (new_sector disk sector (offset % 512) chunk buffer bytes_written)) in
    if (chunk == 0) || (not (is_whole (offset % 512) chunk) && not malloc_ok)
    then (bytes_written, disk)
    else rest

-- The number of bytes written, and the device after.
unfoldable pub inode_write_at : Bool → Inode → Bytes → ℕ → ℕ → Device → ℕ × Device
inode_write_at malloc_ok inode buffer size offset disk =
    if inode.deny_write_cnt == 0
    then write_loop size malloc_ok inode buffer size offset 0 disk
    else (0, disk)

unfoldable pub inode_deny_write : Inode → Option Inode
inode_deny_write inode = do
  assert (leb (inode.deny_write_cnt + 1) inode.open_cnt)
  some (record inode { deny_write_cnt = inode.deny_write_cnt + 1 })

unfoldable pub inode_allow_write : Inode → Option Inode
inode_allow_write inode = do
  assert (ltb 0 inode.deny_write_cnt)
  assert (leb inode.deny_write_cnt inode.open_cnt)
  some (record inode { deny_write_cnt = inode.deny_write_cnt - 1 })

-- `inode_open` of an inode that is not in memory, where there is memory: `start` and `length`
-- stand in the sector.
unfoldable pub inode_open : ℕ → ℕ → ℕ → Inode
inode_open sector start length = record {
  sector = sector;
  open_cnt = 1;
  removed = false;
  deny_write_cnt = 0;
  start = start;
  length = length;
}

unfoldable pub inode_reopen : Inode → Inode
inode_reopen inode = record inode { open_cnt = inode.open_cnt + 1 }

-- `inode_close` of an open inode; the release of the sectors of a removed one is left out.
unfoldable pub inode_close : Inode → Inode
inode_close inode = record inode { open_cnt = inode.open_cnt - 1 }

unfoldable pub inode_remove : Inode → Inode
inode_remove inode = record inode { removed = true }

abbrev pub inode_length : Inode → ℕ
inode_length inode = inode.length
