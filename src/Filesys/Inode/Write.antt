-- ===== src/Filesys/Inode/Write.antt =====
-- `inode_write_at` updates the bytes of the file, and nothing else on the device.
use pintos_lab.Base.{
  ℕ, zero, suc, ◌+◌, ◌-◌, ◌/◌, ◌%◌, ◌≡◌, refl, sym, ap, ◌∙◌, ◌≤◌, ◌<◌, Bool, true, false, ◌&&◌, ltb,
  leb, ◌==◌, if◌then◌else◌, arith, Bool-cases, inl, inr,
}
use pintos_lab.Filesys.Inode.{
  Bytes, Device, Inode, bytes_to_sectors, byte_to_sector, chunk_size, block_write, is_whole,
  new_sector, write_loop, inode_write_at, inode_read_at,
}
use pintos_lab.Filesys.Inode.Content.{content}
use pintos_lab.Filesys.Inode.Read.{granted, chunk_zero, chunk_rest, within, inode_read_at_lem}

-- The bytes of a file after `n` bytes of a buffer from `from` on were written at `offset`.
abbrev pub written : (ℕ → ℕ) → Bytes → ℕ → ℕ → ℕ → ℕ → ℕ
written old buffer from offset n =
    λ i. if leb offset i && ltb i (offset + n) then buffer (from + (i - offset)) else old i

-- The sector is one of the file's data.
abbrev pub is_own : Inode → ℕ → Bool
is_own inode s = leb inode.start s && ltb s (inode.start + bytes_to_sectors inode.length)

new_sector-at :
    (disk : Device) (sector ofs chunk from j : ℕ) (buffer : Bytes)
    → j < 512
    → chunk ≤ 512 - ofs
    → new_sector disk sector ofs chunk buffer from j
      ≡ (if leb ofs j && ltb j (ofs + chunk) then buffer (from + (j - ofs)) else disk sector j)
new_sector-at disk sector ofs chunk from j buffer lt le = elim (Bool-cases (is_whole ofs chunk)) [
  | inl w ↦ (let here : j - ofs ≡ j = ground (arith, w) in ground (arith, w, here))
  | inr w ↦ ground (arith, w)
]

-- A byte of the file, where the sector of `offset` is written.
block_at :
    (disk : Device) (buffer new : Bytes) (start offset c from i : ℕ)
    → c ≤ 512 - offset % 512
    → new (i % 512) ≡ (
        if leb (offset % 512) (i % 512) && ltb (i % 512) (offset % 512 + c)
        then buffer (from + (i % 512 - offset % 512))
        else disk (start + offset / 512) (i % 512))
    → block_write disk (start + offset / 512) new (start + i / 512) (i % 512) ≡ (
        if leb offset i && ltb i (offset + c)
        then buffer (from + (i - offset))
        else disk (start + i / 512) (i % 512))
block_at disk buffer new start offset c from i le at = elim (Bool-cases (offset / 512 == i / 512)) [
  | inl q ↦
      (let quot : offset / 512 ≡ i / 512 = ground (arith, q) in
        let lo : leb (offset % 512) (i % 512) ≡ leb offset i = ground (arith, quot) in
        let hi : ltb (i % 512) (offset % 512 + c) ≡ ltb i (offset + c) = ground (arith, quot) in
        let back : i % 512 - offset % 512 ≡ i - offset = omega arith in
        ground (arith, at, quot, lo, hi, back))
  | inr q ↦
      (let out : (leb offset i && ltb i (offset + c)) ≡ false = ground (arith, q) in
        let other : (start + offset / 512 == start + i / 512) ≡ false = ground (arith, q) in
        ground (arith, out, other))
]

module _ (inode : Inode) (buffer : Bytes) where
  -- The device after a round.
  abbrev round : Device → ℕ → ℕ → ℕ → Device
  round disk size offset from = block_write disk (byte_to_sector inode offset) (
      new_sector disk (byte_to_sector inode offset) (offset % 512) (chunk_size inode size offset)
        buffer from)

  chunk_room : (size offset : ℕ) → chunk_size inode size offset ≤ 512 - offset % 512
  chunk_room size offset = ground arith

  round-content :
      (disk : Device) (size offset from i : ℕ)
      → (chunk_size inode size offset == 0) ≡ false
      → content (round disk size offset from) inode i
        ≡ written (content disk inode) buffer from offset (chunk_size inode size offset) i
  unfolding byte_to_sector
  round-content disk size offset from i e =
      let (below, room) = within disk inode size offset 0 (ground (arith, e)) in
      let c = chunk_size inode size offset in
      let sector = inode.start + offset / 512 in
      let here : byte_to_sector inode offset ≡ sector = ground (arith, below) in
      let at =
        new_sector-at disk sector (offset % 512) c from (i % 512) buffer (omega arith)
          (chunk_room size offset) in
      ap
        (λ (x : ℕ).
          block_write disk x (new_sector disk x (offset % 512) c buffer from)
            (inode.start + i / 512) (i % 512))
        here
      ∙ block_at disk buffer (new_sector disk sector (offset % 512) c buffer from) inode.start
          offset c from i (chunk_room size offset) at

  round-others :
      (disk : Device) (size offset from s j : ℕ)
      → (chunk_size inode size offset == 0) ≡ false
      → is_own inode s ≡ false
      → round disk size offset from s j ≡ disk s j
  unfolding byte_to_sector
  round-others disk size offset from s j e o =
      let (below, room) = within disk inode size offset 0 (ground (arith, e)) in
      let own : (inode.start + offset / 512 == s) ≡ false = ground (arith, o, below) in
      ground (arith, below, own)

  write_stop :
      (n size offset from : ℕ) (disk : Device)
      → (chunk_size inode size offset == 0) ≡ true
      → write_loop (suc n) true inode buffer size offset from disk ≡ (from, disk)
  unfolding write_loop
  write_stop n size offset from disk e = rw e

  write_next :
      (n size offset from : ℕ) (disk : Device)
      → (chunk_size inode size offset == 0) ≡ false
      → write_loop (suc n) true inode buffer size offset from disk
        ≡ write_loop n true inode buffer
            (size - chunk_size inode size offset)
            (offset + chunk_size inode size offset)
            (from + chunk_size inode size offset)
            (round disk size offset from)
  unfolding write_loop
  write_next n size offset from disk e = ground (arith, e)

  written_twice :
      (old mid : ℕ → ℕ) (from offset m n i : ℕ)
      → mid i ≡ written old buffer from offset m i
      → written mid buffer (from + m) (offset + m) n i ≡ written old buffer from offset (m + n) i
  written_twice old mid from offset m n i e =
      elim (Bool-cases (leb (offset + m) i && ltb i (offset + m + n))) [
        | inl h ↦
            (let same : from + m + (i - (offset + m)) ≡ from + (i - offset) = ground (arith, h) in
              ground (arith, h, same))
        | inr h ↦ ground (arith, h, e)
      ]

  write_loop_lem :
      (n size offset from i : ℕ) (disk : Device)
      → size ≤ n
      → ((write_loop n true inode buffer size offset from disk).0
          ≡ from + granted inode size offset)
        × (content (write_loop n true inode buffer size offset from disk).1 inode i
            ≡ written (content disk inode) buffer from offset (granted inode size offset) i)
        × ((s j : ℕ)
            → is_own inode s ≡ false
            → (write_loop n true inode buffer size offset from disk).1 s j ≡ disk s j)
  unfolding write_loop
  write_loop_lem zero size offset from i disk le = (ground arith, ground arith, λ s j o. refl)
  write_loop_lem (suc n) size offset from i disk le =
      elim (Bool-cases (chunk_size inode size offset == 0)) [
        | inl e ↦ rw (write_stop n size offset from disk e) (
            let none_left = chunk_zero disk inode size offset (ground (arith, e)) in
            (ground (arith, none_left), ground (arith, none_left), λ s j o. refl))
        | inr e ↦ rw (write_next n size offset from disk e) (
            let m = chunk_size inode size offset in
            let mid = round disk size offset from in
            let (count, byte, rest) =
              write_loop_lem n (size - m) (offset + m) (from + m) i mid (ground (arith, e)) in
            let sum = chunk_rest disk inode size offset in
            (
              omega (arith, count, sum),
              byte
                  ∙ written_twice (content disk inode) (content mid inode) from offset m
                      (granted inode (size - m) (offset + m)) i
                      (round-content disk size offset from i e)
                  ∙ ap (λ (x : ℕ). written (content disk inode) buffer from offset x i) (sym sum),
              λ s j o. rest s j o ∙ round-others disk size offset from s j e o,
            ))
      ]

  write_allowed :
      (size offset : ℕ) (disk : Device)
      → inode.deny_write_cnt ≡ 0
      → inode_write_at true inode buffer size offset disk
        ≡ write_loop size true inode buffer size offset 0 disk
  unfolding inode_write_at
  write_allowed size offset disk d = ground (arith, d)

  -- Where writes are not denied and there is memory for the bounce buffer, `inode_write_at` writes
  -- as many bytes as are given and fit in the file from the offset on; those bytes of the file
  -- become the first of the buffer, every other byte of the file stays, and so does every sector
  -- that is not one of the file's data.
  pub inode_write_at_lem :
      (size offset i s j : ℕ) (disk : Device)
      → inode.deny_write_cnt ≡ 0
      → is_own inode s ≡ false
      → ((inode_write_at true inode buffer size offset disk).0 ≡ granted inode size offset)
        × (content (inode_write_at true inode buffer size offset disk).1 inode i
            ≡ written (content disk inode) buffer 0 offset (granted inode size offset) i)
        × ((inode_write_at true inode buffer size offset disk).1 s j ≡ disk s j)
  inode_write_at_lem size offset i s j disk d o =
      let (count, byte, rest) = write_loop_lem size size offset 0 i disk (omega arith) in
      rw (write_allowed size offset disk d) (omega (arith, count), byte, rest s j o)

  -- Where writes are not denied and there is memory for the bounce buffer, `inode_read_at` of a
  -- range just written by `inode_write_at` reads as many bytes as were written, and these bytes.
  pub write-read :
      (size offset i : ℕ) (disk : Device) (old : Bytes)
      → inode.deny_write_cnt ≡ 0
      → let disk' = (inode_write_at true inode buffer size offset disk).1 in
        ((inode_read_at true disk' inode old size offset).0
          ≡ (inode_write_at true inode buffer size offset disk).0)
        × ((inode_read_at true disk' inode old size offset).1 i
            ≡ (if ltb i (granted inode size offset) then buffer i else old i))
  write-read size offset i disk old d =
      let (count, byte, rest) = write_loop_lem size size offset 0 (offset + i) disk (omega arith) in
      let after = (write_loop size true inode buffer size offset 0 disk).1 in
      let (read_count, read_byte) = inode_read_at_lem after inode size offset i old in
      rw (write_allowed size offset disk d)
        (omega (arith, read_count, count), read_byte ∙ ground (arith, byte))
