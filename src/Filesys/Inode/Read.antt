-- ===== src/Filesys/Inode/Read.antt =====
-- `inode_read_at` returns the bytes of the file.
use pintos_lab.Base.{
  ℕ, zero, suc, ◌+◌, ◌-◌, ◌/◌, ◌%◌, ◌≡◌, sym, ap, ◌∙◌, ◌≤◌, ◌<◌, true, false, ◌&&◌, ltb, leb, ◌==◌,
  if◌then◌else◌, arith, Bool-cases, inl, inr,
}
use pintos_lab.Filesys.Inode.{
  Bytes, Device, Inode, byte_to_sector, min, chunk_size, memcpy, read_loop, inode_read_at,
}
use pintos_lab.Filesys.Inode.Content.{content}

-- The bytes that a request gets.
abbrev pub granted : Inode → ℕ → ℕ → ℕ
granted inode size offset = min size (inode.length - offset)

-- A buffer into which `n` bytes of the file from `offset` on have been copied at `at`.
abbrev pub filled : Device → Inode → Bytes → ℕ → ℕ → ℕ → Bytes
filled disk inode buffer at offset n =
    λ i. if leb at i && ltb i (at + n) then content disk inode (offset + (i - at)) else buffer i

module _ (disk : Device) (inode : Inode) where
  pub chunk_zero :
      (size offset : ℕ) → chunk_size inode size offset ≡ 0 → granted inode size offset ≡ 0
  chunk_zero size offset h = ground arith

  pub chunk_rest :
      (size offset : ℕ)
      → granted inode size offset
        ≡ chunk_size inode size offset
          + granted inode
              (size - chunk_size inode size offset)
              (offset + chunk_size inode size offset)
  chunk_rest size offset = ground arith

  pub within :
      (size offset j : ℕ)
      → j < chunk_size inode size offset
      → (offset < inode.length) × (offset % 512 + j < 512)
  within size offset j h = ground arith

  pub in_sector :
      (size offset j : ℕ)
      → j < chunk_size inode size offset
      → disk (byte_to_sector inode offset) (offset % 512 + j) ≡ content disk inode (offset + j)
  unfolding byte_to_sector
  in_sector size offset j h =
      let (below, room) = within size offset j h in
      let same : (offset + j) / 512 ≡ offset / 512 = omega arith in
      let at : (offset + j) % 512 ≡ offset % 512 + j = omega arith in
      ground (arith, below, same, at)

  read_stop :
      (n size offset at : ℕ) (buffer : Bytes)
      → (chunk_size inode size offset == 0) ≡ true
      → read_loop (suc n) true disk inode size offset at buffer ≡ (at, buffer)
  unfolding read_loop
  read_stop n size offset at buffer e = rw e

  read_next :
      (n size offset at : ℕ) (buffer : Bytes)
      → (chunk_size inode size offset == 0) ≡ false
      → read_loop (suc n) true disk inode size offset at buffer
        ≡ read_loop n true disk inode
            (size - chunk_size inode size offset)
            (offset + chunk_size inode size offset)
            (at + chunk_size inode size offset)
            (memcpy buffer at
              (disk (byte_to_sector inode offset))
              (offset % 512)
              (chunk_size inode size offset))
  unfolding read_loop
  read_next n size offset at buffer e = ground (arith, e)

  -- The bytes that a round copies.
  copied :
      (size offset at i : ℕ) (buffer : Bytes)
      → memcpy buffer at
          (disk (byte_to_sector inode offset))
          (offset % 512)
          (chunk_size inode size offset)
          i
        ≡ filled disk inode buffer at offset (chunk_size inode size offset) i
  copied size offset at i buffer =
      elim (Bool-cases (leb at i && ltb i (at + chunk_size inode size offset))) [
        | inl e ↦ (let s = in_sector size offset (i - at) (ground (arith, e)) in rw e s)
        | inr e ↦ rw e
      ]

  filled_twice :
      (buffer mid : Bytes) (at offset m n i : ℕ)
      → mid i ≡ filled disk inode buffer at offset m i
      → filled disk inode mid (at + m) (offset + m) n i
        ≡ filled disk inode buffer at offset (m + n) i
  filled_twice buffer mid at offset m n i e =
      elim (Bool-cases (leb (at + m) i && ltb i (at + m + n))) [
        | inl h ↦
            (let same : offset + m + (i - (at + m)) ≡ offset + (i - at) = ground (arith, h) in
              ground (arith, h, same))
        | inr h ↦ ground (arith, h, e)
      ]

  read_loop_lem :
      (n size offset at i : ℕ) (buffer : Bytes)
      → size ≤ n
      → ((read_loop n true disk inode size offset at buffer).0 ≡ at + granted inode size offset)
        × ((read_loop n true disk inode size offset at buffer).1 i
            ≡ filled disk inode buffer at offset (granted inode size offset) i)
  unfolding read_loop
  read_loop_lem zero size offset at i buffer le = (ground arith, ground arith)
  read_loop_lem (suc n) size offset at i buffer le =
      elim (Bool-cases (chunk_size inode size offset == 0)) [
        | inl e ↦ rw (read_stop n size offset at buffer e) (
            let none_left = chunk_zero size offset (ground (arith, e)) in
            (ground (arith, none_left), ground (arith, none_left)))
        | inr e ↦ rw (read_next n size offset at buffer e) (
            let m = chunk_size inode size offset in
            let mid = memcpy buffer at (disk (byte_to_sector inode offset)) (offset % 512) m in
            let (count, byte) =
              read_loop_lem n (size - m) (offset + m) (at + m) i mid (ground (arith, e)) in
            let sum = chunk_rest size offset in
            (
              omega (arith, count, sum),
              byte
                  ∙ filled_twice buffer mid at offset m (granted inode (size - m) (offset + m)) i
                      (copied size offset at i buffer)
                  ∙ ap (λ (x : ℕ). filled disk inode buffer at offset x i) (sym sum),
            ))
      ]

  -- With memory for the bounce buffer, `inode_read_at` reads as many bytes as are asked for and
  -- left in the file from the offset on; it puts those bytes of the file at the start of the
  -- buffer and changes no other byte of it.
  pub inode_read_at_lem :
      (size offset i : ℕ) (buffer : Bytes)
      → ((inode_read_at true disk inode buffer size offset).0 ≡ granted inode size offset)
        × ((inode_read_at true disk inode buffer size offset).1 i ≡ (
            if ltb i (granted inode size offset)
            then content disk inode (offset + i)
            else buffer i))
  unfolding inode_read_at
  inode_read_at_lem size offset i buffer =
      let (count, byte) = read_loop_lem size size offset 0 i buffer (omega arith) in
      (omega (arith, count), byte ∙ ground arith)
