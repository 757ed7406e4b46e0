-- ===== src/Process/Load/Pages.antt =====
-- The loader asks only for pages of the user's part of memory.
use pintos_lab.Base.{
  ℕ, zero, suc, ◌+◌, ◌-◌, ◌*◌, ◌/◌, ◌%◌, ◌^◌, ◌≤◌, ◌<◌, ◌≡◌, refl, Bool, true, false, ◌&&◌, Option,
  some, ltb, ◌==◌, if◌then◌else◌, arith, Bool-cases, inl, inr,
}
use pintos_lab.Process.Load.{
  Phdr, validate_segment, read_bytes, zero_bytes, segment_loop, load_segment, load_phdr,
}

-- A page above page 0 and below the kernel, of which `read` bytes come from the file.
pub record IsUserPage (upage read blank : ℕ) : Type 0 where
  pub aligned : upage % 4096 ≡ 0
  pub above : 4096 ≤ upage
  pub below : upage + 4096 ≤ 0xc0000000
  pub whole : read + blank ≡ 4096

-- What the checks of a segment say of its pages.
valid_pages :
    (phdr : Phdr) (file_length : ℕ)
    → phdr.p_vaddr < 2 ^ 32
    → phdr.p_memsz < 2 ^ 32
    → validate_segment phdr file_length ≡ true
    → (read_bytes phdr + zero_bytes phdr
        ≡ (phdr.p_vaddr % 4096 + phdr.p_memsz + 4095) / 4096 * 4096)
      × ((phdr.p_vaddr - phdr.p_vaddr % 4096) % 4096 ≡ 0)
      × (4096 ≤ phdr.p_vaddr - phdr.p_vaddr % 4096)
      × (phdr.p_vaddr
            - phdr.p_vaddr % 4096
            + (phdr.p_vaddr % 4096 + phdr.p_memsz + 4095) / 4096 * 4096
          ≤ 0xc0000000)
unfolding validate_segment read_bytes zero_bytes
valid_pages phdr file_length v m e =
    let end : phdr.p_vaddr + phdr.p_memsz < 0xc0000000 = ground arith in
    let low : 4096 ≤ phdr.p_vaddr = ground arith in
    let filesz : phdr.p_filesz ≤ phdr.p_memsz = ground arith in
    (ground (arith, end, low, filesz), omega arith, omega arith, omega arith)

module _ {S : Type 0} (is_absent : ℕ → S → Bool) (install : ℕ → ℕ → ℕ → ℕ → S → Bool × S)
    (Inv : S → Type 0) (none_mapped : (upage : ℕ) (s : S) → Inv s → is_absent upage s ≡ true)
    (keeps : (upage ofs read blank : ℕ) (s : S)
      → IsUserPage upage read blank
      → Inv s
      → Inv (install upage ofs read blank s).1) where
  -- The code goes on, to a state that has the property.
  abbrev pub Keeps : Option (Bool × S) → Type 0
  Keeps r = (ok : Bool) × (s' : S) × (r ≡ some (ok, s')) × Inv s'

  page_read : ℕ → ℕ
  page_read read = if ltb read 4096 then read else 4096

  loop_end :
      (n upage ofs : ℕ) (s : S)
      → segment_loop is_absent install (suc n) upage ofs 0 0 s ≡ some (true, s)
  unfolding segment_loop
  loop_end n upage ofs s = ground arith

  loop_next :
      (n upage ofs read blank : ℕ) (s : S)
      → 0 < read + blank
      → blank < 2 ^ 32
      → upage + 4096 < 2 ^ 32
      → 4096 ≤ read + blank
      → is_absent upage s ≡ true
      → segment_loop is_absent install (suc n) upage ofs read blank s ≡ (
          if (install upage ofs (page_read read) (4096 - page_read read) s).0
          then segment_loop is_absent install n
              (upage + 4096)
              ((ofs + page_read read) % 2 ^ 32)
              (read - page_read read)
              (blank - (4096 - page_read read))
              (install upage ofs (page_read read) (4096 - page_read read) s).1
          else some (false, (install upage ofs (page_read read) (4096 - page_read read) s).1))
  unfolding segment_loop page_read
  loop_next n upage ofs read blank s pos b u sum a =
      let more : ((read == 0) && (blank == 0)) ≡ false = ground arith in
      let up : (upage + 4096) % 2 ^ 32 ≡ upage + 4096 = omega arith in
      let left : (blank + 2 ^ 32 - (4096 - page_read read)) % 2 ^ 32
          ≡ blank - (4096 - page_read read) =
        ground arith in
      rw (more, a, up, left) refl

  loop-Keeps :
      (n k upage ofs read blank : ℕ) (s : S)
      → k < n
      → read + blank ≡ k * 4096
      → upage % 4096 ≡ 0
      → 4096 ≤ upage
      → upage + k * 4096 ≤ 0xc0000000
      → Inv s
      → Keeps (segment_loop is_absent install n upage ofs read blank s)
  unfolding page_read
  loop-Keeps zero k upage ofs read blank s lt sum al lo hi i = absurd (omega arith)
  loop-Keeps (suc n) zero upage ofs read blank s lt sum al lo hi i =
      let r : read ≡ 0 = omega arith in
      let b : blank ≡ 0 = omega arith in rw (r, b) (true, s, loop_end n upage ofs s, i)
  loop-Keeps (suc n) (suc k) upage ofs read blank s lt sum al lo hi i =
      let m = page_read read in
      let after = install upage ofs m (4096 - m) s in
      let page : IsUserPage upage m (4096 - m) = record {
        aligned = al;
        above = lo;
        below = omega arith;
        whole = ground arith;
      } in
      let i' : Inv after.1 = keeps upage ofs m (4096 - m) s page i in
      let rest =
        loop-Keeps n k (upage + 4096) ((ofs + m) % 2 ^ 32) (read - m) (blank - (4096 - m)) after.1
          (omega arith) (ground arith) (omega arith) (omega arith) (omega arith) i' in
      rw
        (loop_next n upage ofs read blank s (omega arith) (omega arith) (omega arith) (omega arith)
          (none_mapped upage s i))
        (elim (Bool-cases after.0) [ inl e ↦ rw e rest | inr e ↦ rw e (false, after.1, refl, i') ])

  segment-Keeps :
      (ofs upage read blank k : ℕ) (s : S)
      → read + blank ≡ k * 4096
      → ofs % 4096 ≡ 0
      → upage % 4096 ≡ 0
      → 4096 ≤ upage
      → upage + k * 4096 ≤ 0xc0000000
      → Inv s
      → Keeps (load_segment is_absent install ofs upage read blank s)
  unfolding load_segment
  segment-Keeps ofs upage read blank k s sum o al lo hi i =
      let whole : ((read + blank) % 2 ^ 32 % 4096 == 0) ≡ true = ground arith in
      let al' : (upage % 4096 == 0) ≡ true = ground arith in
      let o' : (ofs % 4096 == 0) ≡ true = ground arith in
      rw (whole, al', o')
        (loop-Keeps ((read + blank) / 4096 + 1) k upage ofs read blank s (omega arith) sum al lo hi
          i)

  -- Where installing a page in the user's part of memory, above page 0, keeps a property of the
  -- state, and no page is mapped in states with the property, loading a segment whose fields are
  -- 32-bit words ends without a failed assertion in such a state, whatever the fields are.
  pub load_phdr-Keeps :
      (phdr : Phdr) (file_length : ℕ) (s : S)
      → phdr.p_vaddr < 2 ^ 32
      → phdr.p_memsz < 2 ^ 32
      → Inv s
      → Keeps (load_phdr is_absent install phdr file_length s)
  unfolding load_phdr
  load_phdr-Keeps phdr file_length s v m i = elim (Bool-cases (validate_segment phdr file_length)) [
    | inr e ↦ rw e (false, s, refl, i)
    | inl e ↦ rw e (
        let (sum, al, lo, hi) = valid_pages phdr file_length v m e in
        segment-Keeps (phdr.p_offset - phdr.p_offset % 4096) (phdr.p_vaddr - phdr.p_vaddr % 4096)
          (read_bytes phdr) (zero_bytes phdr) ((phdr.p_vaddr % 4096 + phdr.p_memsz + 4095) / 4096) s
          sum (omega arith) al lo hi i)
  ]
