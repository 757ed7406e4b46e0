-- ===== src/Process/Syscall/OpenClose.antt =====
-- Opening a file, closing a descriptor, and one after the other.
use pintos_lab.Base.{
  ℕ, ◌+◌, ◌%◌, ◌^◌, ◌≡◌, refl, inl, inr, true, Option, none, some, ◌==◌, if◌then◌else◌, arith,
  Bool-cases,
}
use pintos_lab.Process.Syscall.{
  OpenFile, Thread, World, returned, find_file, remove_file, add_file, check_ptr, arg_ptr, arg,
  opened_to, close_found, sys_open, sys_close,
}
use pintos_lab.Process.Syscall.Table.{
  IsValid, find_file-next, find_file-add_file, find_file-add_file_ne, remove_file-append,
  Ordered-remove_file, find_file-remove_file, find_file-remove_file_ne,
}

module _ {W : Type 0} (world : World W) where
  open world use {readable, open_file, file_close}

  find_file-added :
      (fd file : ℕ) (p : Thread)
      → IsValid p
      → find_file fd (add_file file p).files
        ≡ (if fd == p.file_fd then some (record { fd = fd; file = file }) else find_file fd p.files)
  find_file-added fd file p v =
      let new = find_file-add_file file p v in
      elim (Bool-cases (fd == p.file_fd)) [
        | inl e ↦ ground arith
        | inr ne ↦ (let old = find_file-add_file_ne fd file p (ground arith) in ground arith)
      ]

  -- Where the two pointers pass, the argument can be read and the file system opens `file`,
  -- `sys_open` returns the next descriptor of a valid table; from then on the descriptor names the
  -- file, and every other descriptor names what it named before.
  pub sys_open-fresh :
      (esp file fd : ℕ) (p : Thread) (w w' : W)
      → IsValid p
      → check_ptr world (arg_ptr world esp 1) w ≡ true
      → readable (arg_ptr world esp 1) w ≡ true
      → check_ptr world (arg world esp 1 w) w ≡ true
      → open_file (arg world esp 1 w) w ≡ (some file, w')
      → (sys_open world esp p w ≡ returned (some p.file_fd) (add_file file p) w')
        × (find_file fd (add_file file p).files ≡ (
            if fd == p.file_fd
            then some (record { fd = fd; file = file })
            else find_file fd p.files))
  unfolding sys_open opened_to
  sys_open-fresh esp file fd p w w' v ok_arg read ok_name opens =
      (rw (ok_arg, read) (rw ok_name (rw opens)), find_file-added fd file p v)

  find_file-removed :
      (other fd : ℕ) (p : Thread)
      → IsValid p
      → find_file other (remove_file fd p.files)
        ≡ (if other == fd then none else find_file other p.files)
  unfolding IsValid
  find_file-removed other fd p v =
      let gone = find_file-remove_file fd 2 p.files p.file_fd v in
      elim (Bool-cases (other == fd)) [
        | inl e ↦ ground arith
        | inr ne ↦
            (let old = find_file-remove_file_ne fd other p.files (ground arith) in ground arith)
      ]

  -- Descriptor `other` where `fd` of `p` has been closed, with `p'` left.
  abbrev pub Closed : ℕ → ℕ → Thread → Thread → Type 0
  Closed other fd p p' =
      (find_file other p'.files ≡ (if other == fd then none else find_file other p.files))
      × IsValid p'

  close_found-Closed :
      (other fd : ℕ) (o : Option OpenFile) (p : Thread) (w : W)
      → IsValid p
      → find_file fd p.files ≡ o
      → (p' : Thread) × (w' : W) × (close_found world fd o p w ≡ returned none p' w')
        × Closed other fd p p'
  unfolding close_found IsValid
  close_found-Closed other fd none p w v e =
      let kept : find_file other p.files ≡ (if other == fd then none else find_file other p.files) =
        elim (Bool-cases (other == fd)) [ inl t ↦ ground arith | inr ne ↦ ground arith ] in
      (p, w, refl, (kept, v))
  close_found-Closed other fd (some f) p w v e = (
    record p { files = remove_file fd p.files },
    file_close f.file w,
    refl,
    (find_file-removed other fd p v, Ordered-remove_file fd 2 p.files p.file_fd v),
  )

  -- Where the pointer to its argument passes and the argument can be read, `sys_close` of any
  -- descriptor on a valid table returns; the descriptor then names nothing, every other one names
  -- what it named before, and the table is valid.
  pub sys_close-Closed :
      (esp other : ℕ) (p : Thread) (w : W)
      → IsValid p
      → check_ptr world (arg_ptr world esp 1) w ≡ true
      → readable (arg_ptr world esp 1) w ≡ true
      → (p' : Thread) × (w' : W) × (sys_close world esp p w ≡ returned none p' w')
        × Closed other (arg world esp 1 w) p p'
  unfolding sys_close
  sys_close-Closed esp other p w v ok read =
      rw (ok, read)
        (close_found-Closed other (arg world esp 1 w) (find_file (arg world esp 1 w) p.files) p w v
          refl)

  -- Where `file` has just been added to a valid table, a `sys_close` of its descriptor whose
  -- pointer passes and whose argument can be read closes that file and leaves the open files as
  -- they were before; only the next descriptor has moved on.
  pub sys_close-add_file :
      (esp file : ℕ) (p : Thread) (w : W)
      → IsValid p
      → check_ptr world (arg_ptr world esp 1) w ≡ true
      → readable (arg_ptr world esp 1) w ≡ true
      → arg world esp 1 w ≡ p.file_fd
      → sys_close world esp (add_file file p) w
        ≡ returned none (record p { file_fd = (p.file_fd + 1) % 2 ^ 32 }) (file_close file w)
  unfolding sys_close close_found add_file
  sys_close-add_file esp file p w v ok read e =
      rw (ok, read)
        (rw e (
          rw (find_file-add_file file p v) (
            rw (
              remove_file-append p.files (record { fd = p.file_fd; file = file })
                (find_file-next p v)))))
