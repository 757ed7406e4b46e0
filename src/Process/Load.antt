-- ===== src/Process/Load.antt =====
-- pintos/userprog/process.c: the segments of an executable, how `load` checks one, computes its
-- pages and asks for each of them. The arithmetic is that of 32-bit words.
pub mod Pages
pub mod Examples
use pintos_lab.Base.{
  ℕ, zero, suc, ◌+◌, ◌-◌, ◌*◌, ◌/◌, ◌%◌, ◌^◌, Bool, true, false, not, ◌&&◌, ◌||◌, Option, none,
  some, ltb, leb, ◌==◌, if◌then◌else◌, assert, ◌>>=◌, ◌>>◌,
}
use pintos_lab.Process.Fault.{is_user_vaddr}

-- The fields of `struct Elf32_Phdr` that the loader reads, less the type and the flags.
pub record Phdr : Type 0 where
  pub p_offset : ℕ
  pub p_vaddr : ℕ
  pub p_filesz : ℕ
  pub p_memsz : ℕ

unfoldable pub validate_segment : Phdr → ℕ → Bool
validate_segment phdr file_length =
    (phdr.p_offset % 4096 == phdr.p_vaddr % 4096)
    && leb phdr.p_offset file_length
    && leb phdr.p_filesz phdr.p_memsz
    && not (phdr.p_memsz == 0)
    && is_user_vaddr phdr.p_vaddr
    && is_user_vaddr ((phdr.p_vaddr + phdr.p_memsz) % 2 ^ 32)
    && leb phdr.p_vaddr ((phdr.p_vaddr + phdr.p_memsz) % 2 ^ 32)
    && leb 4096 phdr.p_vaddr

-- `ROUND_UP (x, PGSIZE)`
abbrev pub round_up : ℕ → ℕ
round_up x = (x + 4095) % 2 ^ 32 / 4096 * 4096

abbrev pub page_offset : Phdr → ℕ
page_offset phdr = phdr.p_vaddr % 4096

unfoldable pub read_bytes : Phdr → ℕ
read_bytes phdr = if ltb 0 phdr.p_filesz then (page_offset phdr + phdr.p_filesz) % 2 ^ 32 else 0

unfoldable pub zero_bytes : Phdr → ℕ
zero_bytes phdr =
    if ltb 0 phdr.p_filesz
    then (round_up (page_offset phdr + phdr.p_memsz) + 2 ^ 32 - read_bytes phdr) % 2 ^ 32
    else round_up (page_offset phdr + phdr.p_memsz)

-- The calls that the loop makes on a state `S`: whether `pagedir_get_page` finds nothing at an
-- address, and `vm_supt_install_filesys` of an address, an offset in the file, and the numbers of
-- bytes to read and of zeroes.
module _ {S : Type 0} (is_absent : ℕ → S → Bool) (install : ℕ → ℕ → ℕ → ℕ → S → Bool × S) where
  -- The loop of `load_segment`; `none` is a failed assertion, or more rounds than are given.
  unfoldable pub segment_loop : ℕ → ℕ → ℕ → ℕ → ℕ → S → Option (Bool × S)
  segment_loop zero upage ofs read blank s = none
  segment_loop (suc n) upage ofs read blank s =
      let page_read = if ltb read 4096 then read else 4096 in
      let page_zero = 4096 - page_read in
      let (ok, s') = install upage ofs page_read page_zero s in
      let rest =
        segment_loop n ((upage + 4096) % 2 ^ 32) ((ofs + page_read) % 2 ^ 32) (read - page_read)
          ((blank + 2 ^ 32 - page_zero) % 2 ^ 32) s' in
      if (read == 0) && (blank == 0)
      then some (true, s)
      else (if not (is_absent upage s) then none else (if ok then rest else some (false, s')))

  -- One round for each page, and one that ends the loop.
  unfoldable pub load_segment : ℕ → ℕ → ℕ → ℕ → S → Option (Bool × S)
  load_segment ofs upage read blank s = do
    assert ((read + blank) % 2 ^ 32 % 4096 == 0)
    assert (upage % 4096 == 0)
    assert (ofs % 4096 == 0)
    segment_loop ((read + blank) / 4096 + 1) upage ofs read blank s

  -- What `load` does with a segment of type PT_LOAD.
  unfoldable pub load_phdr : Phdr → ℕ → S → Option (Bool × S)
  load_phdr phdr file_length s =
      let loaded =
        load_segment (phdr.p_offset - phdr.p_offset % 4096) (phdr.p_vaddr - phdr.p_vaddr % 4096)
          (read_bytes phdr) (zero_bytes phdr) s in
      if validate_segment phdr file_length then loaded else some (false, s)
