-- ===== src/Process/Syscall/Branches.antt =====
-- Every branch of a system call that returns leaves a valid table of open files.
use pintos_lab.Base.{ℕ, ◌+◌, ◌^◌, ◌<◌, inl, inr, Option, none, some, ltb, ◌==◌, Bool-cases, arith}
use pintos_lab.Process.Syscall.{
  OpenFile, Thread, World, Outcome, exited, halted, returned, find_file, check_ptr, checked,
  reading, buffer_checked, last_byte, write_to, write_buffer, opened_to, on_file, read_from,
  read_buffer, seek_to, close_found,
}
use pintos_lab.Process.Syscall.Table.{IsValid, add_file-IsValid, Ordered-remove_file}

-- A call that returns leaves a valid table of open files.
unfoldable pub Keeps : {W : Type 0} → Outcome W → Type 0
Keeps (exited status) = Unit
Keeps halted = Unit
Keeps (returned eax p w) = IsValid p

module _ {W : Type 0} (world : World W) where
  open world use {
    mapped, readable, word, execute, wait, create, remove, open_file, file_length, file_read,
    file_write, file_seek, file_tell, file_close,
  }

  pub checked-Keeps :
      (vaddr : ℕ) (w : W) (next : Outcome W) → Keeps next → Keeps (checked world vaddr w next)
  unfolding Keeps
  checked-Keeps vaddr w next k = elim (Bool-cases (check_ptr world vaddr w)) [
    | inl e ↦ rw e k
    | inr e ↦ rw e tt
  ]

  pub reading-Keeps :
      (vaddr : ℕ) (w : W) (next : Outcome W) → Keeps next → Keeps (reading world vaddr w next)
  unfolding Keeps
  reading-Keeps vaddr w next k = elim (Bool-cases (readable vaddr w)) [
    | inl e ↦ rw e k
    | inr e ↦ rw e tt
  ]

  pub buffer_checked-Keeps :
      (buffer size : ℕ) (w : W) (next : Outcome W)
      → Keeps next
      → Keeps (buffer_checked world buffer size w next)
  buffer_checked-Keeps buffer size w next k =
      checked-Keeps buffer w _ (elim (Bool-cases (ltb 0 size)) [
        | inl e ↦ rw e (checked-Keeps (last_byte world buffer size) w next k)
        | inr e ↦ rw e k
      ])

  pub write_to-Keeps :
      (o : Option OpenFile) (buffer size : ℕ) (p : Thread) (w : W)
      → IsValid p
      → Keeps (write_to world o buffer size p w)
  unfolding write_to Keeps
  write_to-Keeps none buffer size p w v = v
  write_to-Keeps (some f) buffer size p w v = v

  pub write_buffer-Keeps :
      (fd buffer size : ℕ) (p : Thread) (w : W)
      → IsValid p
      → Keeps (write_buffer world fd buffer size p w)
  unfolding write_buffer Keeps
  write_buffer-Keeps fd buffer size p w v = elim (Bool-cases (fd == 1)) [
    | inl e ↦ rw e v
    | inr e ↦ rw e (write_to-Keeps (find_file fd p.files) buffer size p _ v)
  ]

  pub read_from-Keeps :
      (o : Option OpenFile) (buffer size : ℕ) (p : Thread) (w : W)
      → IsValid p
      → Keeps (read_from world o buffer size p w)
  unfolding read_from Keeps
  read_from-Keeps none buffer size p w v = v
  read_from-Keeps (some f) buffer size p w v = v

  pub read_buffer-Keeps :
      (fd buffer size : ℕ) (p : Thread) (w : W)
      → IsValid p
      → Keeps (read_buffer world fd buffer size p w)
  unfolding read_buffer Keeps
  read_buffer-Keeps fd buffer size p w v = elim (Bool-cases (fd == 0)) [
    | inl e ↦ rw e v
    | inr e ↦ rw e (read_from-Keeps (find_file fd p.files) buffer size p _ v)
  ]

  pub on_file-Keeps :
      (f : ℕ → W → ℕ × W) (o : Option OpenFile) (p : Thread) (w : W)
      → IsValid p
      → Keeps (on_file world f o p w)
  unfolding on_file Keeps
  on_file-Keeps f none p w v = v
  on_file-Keeps f (some g) p w v = v

  pub seek_to-Keeps :
      (o : Option OpenFile) (position : ℕ) (p : Thread) (w : W)
      → IsValid p
      → Keeps (seek_to world o position p w)
  unfolding seek_to Keeps
  seek_to-Keeps none position p w v = v
  seek_to-Keeps (some g) position p w v = v

  pub opened_to-Keeps :
      (r : Option ℕ × W) (p : Thread)
      → IsValid p
      → p.file_fd + 1 < 2 ^ 31
      → Keeps (opened_to world r p)
  unfolding opened_to Keeps
  opened_to-Keeps (none, w) p v lt = v
  opened_to-Keeps (some file, w) p v lt = add_file-IsValid file p v (omega (arith, lt))

  pub close_found-Keeps :
      (fd : ℕ) (o : Option OpenFile) (p : Thread) (w : W)
      → IsValid p
      → Keeps (close_found world fd o p w)
  unfolding close_found Keeps IsValid
  close_found-Keeps fd none p w v = v
  close_found-Keeps fd (some g) p w v = Ordered-remove_file fd 2 p.files p.file_fd v
