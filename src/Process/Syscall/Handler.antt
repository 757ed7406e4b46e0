-- ===== src/Process/Syscall/Handler.antt =====
-- What the system calls do to the open files, and which calls end the process.
use pintos_lab.Base.{
  ℕ, zero, suc, ◌+◌, ◌^◌, ◌<◌, inl, inr, Option, none, List, [], ◌∷◌, ltb, ◌==◌, get_or, Bool-cases,
}
use pintos_lab.Process.Syscall.{
  Thread, World, Outcome, checked, reading, arg_ptr, arg, sys_halt, sys_exec, sys_wait, sys_write,
  sys_create, sys_remove, sys_open, sys_filesize, sys_read, sys_seek, sys_tell, sys_close, Handler,
  syscalls, call, syscall_handler,
}
use pintos_lab.Process.Syscall.Table.{IsValid}
use pintos_lab.Process.Syscall.Branches.{
  Keeps, checked-Keeps, reading-Keeps, buffer_checked-Keeps, write_buffer-Keeps, read_buffer-Keeps,
  on_file-Keeps, seek_to-Keeps, opened_to-Keeps, close_found-Keeps,
}

module _ {W : Type 0} (world : World W) where
  open world use {
    word, execute, wait, create, remove, open_file, file_length, file_tell, file_close,
  }

  -- A handler of the table that keeps a valid table of open files.
  KeepsFiles : Option (Handler world) → Type 0
  KeepsFiles h =
      (esp : ℕ) (p : Thread) (w : W)
      → IsValid p
      → p.file_fd + 1 < 2 ^ 31
      → Keeps (call world h esp p w)

  Each : List (Option (Handler world)) → Type 0
  Each [] = Unit
  Each (h ∷ hs) = KeepsFiles h × Each hs

  get_or-KeepsFiles :
      (hs : List (Option (Handler world))) (i : ℕ) → Each hs → KeepsFiles (get_or hs i none)
  unfolding Each KeepsFiles call Keeps
  get_or-KeepsFiles [] i e = λ esp p w v lt. tt
  get_or-KeepsFiles (h ∷ hs) zero e = e.0
  get_or-KeepsFiles (h ∷ hs) (suc i) e = get_or-KeepsFiles hs i e.1

  one_checked :
      (esp : ℕ) (w : W) (next : Outcome W)
      → Keeps next
      → Keeps (checked world (arg_ptr world esp 1) w (reading world (arg_ptr world esp 1) w next))
  one_checked esp w next k =
      checked-Keeps world (arg_ptr world esp 1) w _
        (reading-Keeps world (arg_ptr world esp 1) w next k)

  two_checked :
      (esp : ℕ) (w : W) (next : Outcome W)
      → Keeps next
      → Keeps (
          checked world (arg_ptr world esp 1) w (
            checked world
              (arg_ptr world esp 2)
              w
              (reading world (arg_ptr world esp 1) w (reading world (arg_ptr world esp 2) w next))))
  two_checked esp w next k = checked-Keeps world (arg_ptr world esp 1) w _ (
      checked-Keeps world (arg_ptr world esp 2) w _ (
        reading-Keeps world (arg_ptr world esp 1) w _
          (reading-Keeps world (arg_ptr world esp 2) w next k)))

  three_checked :
      (esp : ℕ) (w : W) (next : Outcome W)
      → Keeps next
      → Keeps (
          checked world (arg_ptr world esp 1) w (
            checked world (arg_ptr world esp 2) w (
              checked world (arg_ptr world esp 3) w (
                reading world (arg_ptr world esp 1) w (
                  reading world
                    (arg_ptr world esp 2)
                    w
                    (reading world (arg_ptr world esp 3) w next))))))
  three_checked esp w next k = checked-Keeps world (arg_ptr world esp 1) w _ (
      checked-Keeps world (arg_ptr world esp 2) w _ (
        checked-Keeps world (arg_ptr world esp 3) w _ (
          reading-Keeps world (arg_ptr world esp 1) w _ (
            reading-Keeps world (arg_ptr world esp 2) w _
              (reading-Keeps world (arg_ptr world esp 3) w next k)))))

  syscalls-Each : Each (syscalls world)
  unfolding Each KeepsFiles syscalls call Keeps sys_halt sys_exec sys_wait sys_create sys_remove
      sys_open sys_filesize sys_read sys_write sys_seek sys_tell sys_close
  syscalls-Each = (
    (λ esp p w v lt. tt),
    (
      (λ esp p w v lt. tt),
      (
        (λ esp p w v lt. one_checked esp w _ (checked-Keeps world (arg world esp 1 w) w _ v)),
        (
          (λ esp p w v lt. one_checked esp w _ v),
          (
            (λ esp p w v lt. two_checked esp w _ (checked-Keeps world (arg world esp 1 w) w _ v)),
            (
              (λ esp p w v lt. one_checked esp w _ (checked-Keeps world (arg world esp 1 w) w _ v)),
              (
                (λ esp p w v lt. one_checked esp w _ (
                    checked-Keeps world (arg world esp 1 w) w _
                      (opened_to-Keeps world (open_file (arg world esp 1 w) w) p v lt))),
                (
                  (λ esp p w v lt. one_checked esp w _ (on_file-Keeps world file_length _ p w v)),
                  (
                    (λ esp p w v lt. three_checked esp w _ (
                        buffer_checked-Keeps world (arg world esp 2 w) (arg world esp 3 w) w _ (
                          read_buffer-Keeps world (arg world esp 1 w) (arg world esp 2 w)
                            (arg world esp 3 w) p w v))),
                    (
                      (λ esp p w v lt. three_checked esp w _ (
                          buffer_checked-Keeps world (arg world esp 2 w) (arg world esp 3 w) w _ (
                            write_buffer-Keeps world (arg world esp 1 w) (arg world esp 2 w)
                              (arg world esp 3 w) p w v))),
                      (
                        (λ esp p w v lt.
                            two_checked esp w _ (seek_to-Keeps world _ (arg world esp 2 w) p w v)),
                        (
                          (λ esp p w v lt.
                              one_checked esp w _ (on_file-Keeps world file_tell _ p w v)),
                          (
                            (λ esp p w v lt.
                                one_checked esp w _
                                  (close_found-Keeps world (arg world esp 1 w) _ p w v)),
                            tt,
                          ),
                        ),
                      ),
                    ),
                  ),
                ),
              ),
            ),
          ),
        ),
      ),
    ),
  )

  -- Whatever the stack pointer, the user memory and the answers of the other components, a system
  -- call that returns to a process with a valid table of open files, whose next descriptor is less
  -- than the last of the `int`s, leaves the table valid: descriptors from 2 on, all different,
  -- in increasing order and below the next one.
  pub syscall_handler-Keeps :
      (esp : ℕ) (p : Thread) (w : W)
      → IsValid p
      → p.file_fd + 1 < 2 ^ 31
      → Keeps (syscall_handler world esp p w)
  unfolding syscall_handler KeepsFiles Keeps IsValid
  syscall_handler-Keeps esp p w v lt = checked-Keeps world esp w _ (
      reading-Keeps world esp w _ (elim (Bool-cases (ltb (word esp w) 20)) [
        | inr e ↦ rw e tt
        | inl e ↦ rw e (elim (Bool-cases (word esp w == 1)) [
          | inl one ↦ rw one (one_checked esp w _ tt)
          | inr other ↦ rw other (
              get_or-KeepsFiles (syscalls world) (word esp w) syscalls-Each esp
                (record p { current_esp = esp }) w v lt)
        ])
      ]))
