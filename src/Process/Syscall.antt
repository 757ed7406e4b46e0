-- ===== src/Process/Syscall.antt =====
-- pintos/userprog/syscall.c: the checks of user pointers, the open files of a process and the
-- dispatch of the system calls. An `int` is its 32-bit pattern, so -1 is 2 ^ 32 - 1.
-- The `malloc` of `sys_open`, whose result the code does not test, is taken to succeed.
pub mod Table
pub mod Pages
pub mod Branches
pub mod Handler
pub mod OpenClose
pub mod Refused
pub mod Examples
use pintos_lab.Base.{
  ℕ, zero, suc, ◌+◌, ◌-◌, ◌/◌, ◌*◌, ◌%◌, ◌^◌, Bool, true, false, not, ◌&&◌, ◌||◌, Option, none,
  some, List, [], ◌∷◌, ◌++◌, ltb, leb, ◌==◌, if◌then◌else◌, get_or,
}
use pintos_lab.Process.Fault.{is_user_vaddr, pg_round_down}

-- `struct open_file`
pub record OpenFile : Type 0 where
  pub fd : ℕ
  pub file : ℕ

-- The fields of `struct thread` that the handler keeps: the open files, the next descriptor, and
-- the stack pointer at the last call.
pub record Thread : Type 0 where
  pub files : List OpenFile
  pub file_fd : ℕ
  pub current_esp : ℕ

-- What `init_thread` sets these fields to; the stack pointer is null.
abbrev pub init_thread : Thread
init_thread = record { files = []; file_fd = 2; current_esp = 0 }

-- What the handlers call: user memory, page table, file system, console and processes, on a state
-- `W`.
pub record World (W : Type 0) : Type 0 where
  pub mapped : ℕ → W → Bool
  pub readable : ℕ → W → Bool  -- false where reading the four bytes faults and ends the process
  pub word : ℕ → W → ℕ
  pub execute : ℕ → W → ℕ × W
  pub wait : ℕ → W → ℕ × W
  pub create : ℕ → ℕ → W → ℕ × W
  pub remove : ℕ → W → ℕ × W
  pub open_file : ℕ → W → Option ℕ × W
  pub file_length : ℕ → W → ℕ × W
  pub file_read : ℕ → ℕ → ℕ → W → ℕ × W
  pub file_write : ℕ → ℕ → ℕ → W → ℕ × W
  pub file_seek : ℕ → ℕ → W → W
  pub file_tell : ℕ → W → ℕ × W
  pub file_close : ℕ → W → W
  pub putbuf : ℕ → ℕ → W → W
  pub get_key : ℕ → W → W  -- `input_getc`, stored at an address
  pub load_page : ℕ → W → W
  pub pin_page : ℕ → W → W
  pub unpin_page : ℕ → W → W

-- How a system call ends: the process exits with a status, the machine halts, or the call returns,
-- with a new value of `eax` if it has one.
pub data Outcome (W : Type 0) : Type 0 where
  exited : ℕ → Outcome W
  halted : Outcome W
  returned : Option ℕ → Thread → W → Outcome W

abbrev pub minus_one : ℕ
minus_one = 2 ^ 32 - 1

-- `find_file`, with the element that it stops at
unfoldable pub find_file : ℕ → List OpenFile → Option OpenFile
find_file fd [] = none
find_file fd (f ∷ fs) = if f.fd == fd then some f else find_file fd fs

-- `list_remove (&tmp->elem)` for the element that `find_file` returned
unfoldable pub remove_file : ℕ → List OpenFile → List OpenFile
remove_file fd [] = []
remove_file fd (f ∷ fs) = if f.fd == fd then fs else f ∷ remove_file fd fs

-- The second half of `sys_open`.
unfoldable pub add_file : ℕ → Thread → Thread
add_file file p = record p {
  files = p.files ++ (record { fd = p.file_fd; file = file } ∷ []);
  file_fd = (p.file_fd + 1) % 2 ^ 32;
}

module _ {W : Type 0} (world : World W) where
  open world use {
    mapped, readable, word, execute, wait, create, remove, open_file, file_length, file_read,
    file_write, file_seek, file_tell, file_close, putbuf, get_key, load_page, pin_page, unpin_page,
  }

  -- `check_ptr`: false where the process is ended
  unfoldable pub check_ptr : ℕ → W → Bool
  check_ptr vaddr w = not (vaddr == 0) && is_user_vaddr vaddr && mapped vaddr w

  -- Goes on if the pointer passes, and else ends the process with status -1.
  abbrev pub checked : ℕ → W → Outcome W → Outcome W
  checked vaddr w next = if check_ptr vaddr w then next else exited minus_one

  -- Goes on if the word at the pointer can be read: `check_ptr` looks at its first byte only, and
  -- a fault on another one ends the process with status -1, like one that the check refuses.
  abbrev pub reading : ℕ → W → Outcome W → Outcome W
  reading vaddr w next = if readable vaddr w then next else exited minus_one

  -- `args + i`, and `args[i]`
  abbrev pub arg_ptr : ℕ → ℕ → ℕ
  arg_ptr esp i = (esp + 4 * i) % 2 ^ 32

  abbrev pub arg : ℕ → ℕ → W → ℕ
  arg esp i w = word (arg_ptr esp i) w

  abbrev pub returning : Thread → ℕ × W → Outcome W
  returning p (eax, w) = returned (some eax) p w

  unfoldable pub sys_exec : ℕ → Thread → W → Outcome W
  sys_exec esp p w =
      checked (arg_ptr esp 1) w (
        reading (arg_ptr esp 1) w (checked (arg esp 1 w) w (returning p (execute (arg esp 1 w) w))))

  unfoldable pub sys_wait : ℕ → Thread → W → Outcome W
  sys_wait esp p w =
      checked (arg_ptr esp 1) w (reading (arg_ptr esp 1) w (returning p (wait (arg esp 1 w) w)))

  -- The loops over the pages from `upage` on that begin below `end`, in at most `n` rounds.
  unfoldable pub pin_pages : ℕ → ℕ → ℕ → W → W
  pin_pages zero upage end w = w
  pin_pages (suc n) upage end w = elim (ltb upage end) [
    | false ↦ w
    | true ↦
        pin_pages n ((upage + 4096) % 2 ^ 32) end
          (pin_page upage (if mapped upage w then w else load_page upage w))
  ]

  unfoldable pub unpin_pages : ℕ → ℕ → ℕ → W → W
  unpin_pages zero upage end w = w
  unpin_pages (suc n) upage end w = elim (ltb upage end) [
    | false ↦ w
    | true ↦ unpin_pages n ((upage + 4096) % 2 ^ 32) end (unpin_page upage w)
  ]

  unfoldable pub preload_and_pin_pages : ℕ → ℕ → W → W
  preload_and_pin_pages addr size w =
      pin_pages (size / 4096 + 2) (pg_round_down addr) ((addr + size) % 2 ^ 32) w

  unfoldable pub unpin_preloaded_pages : ℕ → ℕ → W → W
  unpin_preloaded_pages addr size w =
      unpin_pages (size / 4096 + 2) (pg_round_down addr) ((addr + size) % 2 ^ 32) w

  -- The loop that reads `n` keys to memory.
  unfoldable pub read_keys : ℕ → ℕ → W → W
  read_keys zero addr w = w
  read_keys (suc n) addr w = read_keys n ((addr + 1) % 2 ^ 32) (get_key addr w)

  unfoldable pub write_to : Option OpenFile → ℕ → ℕ → Thread → W → Outcome W
  write_to none buffer size p w = returned (some 0) p (unpin_preloaded_pages buffer size w)
  write_to (some f) buffer size p w =
      let (n, w') = file_write f.file buffer size w in
      returned (some n) p (unpin_preloaded_pages buffer size w')

  -- `buffer + size - 1`, where `size` is not 0
  abbrev pub last_byte : ℕ → ℕ → ℕ
  last_byte buffer size = (buffer + size + 2 ^ 32 - 1) % 2 ^ 32

  unfoldable pub write_buffer : ℕ → ℕ → ℕ → Thread → W → Outcome W
  write_buffer fd buffer size p w =
      let w' = preload_and_pin_pages buffer size w in
      if fd == 1
      then returned (some size) p (unpin_preloaded_pages buffer size (putbuf buffer size w'))
      else write_to (find_file fd p.files) buffer size p w'

  -- `check_ptr (buffer)`, and of its last byte if it has one
  abbrev pub buffer_checked : ℕ → ℕ → W → Outcome W → Outcome W
  buffer_checked buffer size w next =
      checked buffer w (if ltb 0 size then checked (last_byte buffer size) w next else next)

  unfoldable pub sys_write : ℕ → Thread → W → Outcome W
  sys_write esp p w = checked (arg_ptr esp 1) w (
      checked (arg_ptr esp 2) w (
        checked (arg_ptr esp 3) w (
          reading (arg_ptr esp 1) w (
            reading (arg_ptr esp 2) w (
              reading (arg_ptr esp 3) w (
                buffer_checked (arg esp 2 w) (arg esp 3 w) w
                  (write_buffer (arg esp 1 w) (arg esp 2 w) (arg esp 3 w) p w)))))))

  unfoldable pub sys_create : ℕ → Thread → W → Outcome W
  sys_create esp p w = checked (arg_ptr esp 1) w (
      checked (arg_ptr esp 2) w (
        reading (arg_ptr esp 1) w (
          reading (arg_ptr esp 2) w
            (checked (arg esp 1 w) w (returning p (create (arg esp 1 w) (arg esp 2 w) w))))))

  unfoldable pub sys_remove : ℕ → Thread → W → Outcome W
  sys_remove esp p w =
      checked (arg_ptr esp 1) w
        (reading (arg_ptr esp 1) w (checked (arg esp 1 w) w (returning p (remove (arg esp 1 w) w))))

  unfoldable pub opened_to : Option ℕ × W → Thread → Outcome W
  opened_to (none, w) p = returned (some minus_one) p w
  opened_to (some file, w) p = returned (some p.file_fd) (add_file file p) w

  unfoldable pub sys_open : ℕ → Thread → W → Outcome W
  sys_open esp p w = checked (arg_ptr esp 1) w (
      reading (arg_ptr esp 1) w (checked (arg esp 1 w) w (opened_to (open_file (arg esp 1 w) w) p)))

  -- A call with the file of a descriptor, or -1 if it has none.
  unfoldable pub on_file : (ℕ → W → ℕ × W) → Option OpenFile → Thread → W → Outcome W
  on_file call none p w = returned (some minus_one) p w
  on_file call (some f) p w = returning p (call f.file w)

  unfoldable pub sys_filesize : ℕ → Thread → W → Outcome W
  sys_filesize esp p w =
      checked (arg_ptr esp 1) w
        (reading (arg_ptr esp 1) w (on_file file_length (find_file (arg esp 1 w) p.files) p w))

  unfoldable pub read_from : Option OpenFile → ℕ → ℕ → Thread → W → Outcome W
  read_from none buffer size p w = returned (some minus_one) p (unpin_preloaded_pages buffer size w)
  read_from (some f) buffer size p w =
      let (n, w') = file_read f.file buffer size w in
      returned (some n) p (unpin_preloaded_pages buffer size w')

  unfoldable pub read_buffer : ℕ → ℕ → ℕ → Thread → W → Outcome W
  read_buffer fd buffer size p w =
      let w' = preload_and_pin_pages buffer size w in
      if fd == 0
      then returned (some size) p (unpin_preloaded_pages buffer size (read_keys size buffer w'))
      else read_from (find_file fd p.files) buffer size p w'

  unfoldable pub sys_read : ℕ → Thread → W → Outcome W
  sys_read esp p w = checked (arg_ptr esp 1) w (
      checked (arg_ptr esp 2) w (
        checked (arg_ptr esp 3) w (
          reading (arg_ptr esp 1) w (
            reading (arg_ptr esp 2) w (
              reading (arg_ptr esp 3) w (
                buffer_checked (arg esp 2 w) (arg esp 3 w) w
                  (read_buffer (arg esp 1 w) (arg esp 2 w) (arg esp 3 w) p w)))))))

  unfoldable pub seek_to : Option OpenFile → ℕ → Thread → W → Outcome W
  seek_to none position p w = returned none p w
  seek_to (some f) position p w = returned none p (file_seek f.file position w)

  unfoldable pub sys_seek : ℕ → Thread → W → Outcome W
  sys_seek esp p w = checked (arg_ptr esp 1) w (
      checked (arg_ptr esp 2) w (
        reading (arg_ptr esp 1) w (
          reading (arg_ptr esp 2) w (seek_to (find_file (arg esp 1 w) p.files) (arg esp 2 w) p w))))

  unfoldable pub sys_tell : ℕ → Thread → W → Outcome W
  sys_tell esp p w =
      checked (arg_ptr esp 1) w
        (reading (arg_ptr esp 1) w (on_file file_tell (find_file (arg esp 1 w) p.files) p w))

  unfoldable pub close_found : ℕ → Option OpenFile → Thread → W → Outcome W
  close_found fd none p w = returned none p w
  close_found fd (some f) p w =
      returned none (record p { files = remove_file fd p.files }) (file_close f.file w)

  unfoldable pub sys_close : ℕ → Thread → W → Outcome W
  sys_close esp p w =
      checked (arg_ptr esp 1) w (
        reading (arg_ptr esp 1) w (close_found (arg esp 1 w) (find_file (arg esp 1 w) p.files) p w))

  abbrev pub Handler : Type 0
  Handler = ℕ → Thread → W → Outcome W

  unfoldable pub sys_halt : Handler
  sys_halt esp p w = halted

  -- The table of the calls, without the null pointers at its end. `SYS_EXIT`, the second, is run
  -- by the handler itself, which never takes it from here.
  unfoldable pub syscalls : List (Option Handler)
  syscalls =
      some sys_halt
      ∷ none
      ∷ some sys_exec
      ∷ some sys_wait
      ∷ some sys_create
      ∷ some sys_remove
      ∷ some sys_open
      ∷ some sys_filesize
      ∷ some sys_read
      ∷ some sys_write
      ∷ some sys_seek
      ∷ some sys_tell
      ∷ some sys_close
      ∷ []

  -- A null pointer ends the process.
  unfoldable pub call : Option Handler → Handler
  call none esp p w = exited minus_one
  call (some handler) esp p w = handler esp p w

  -- A number that is negative as an `int` is at least 2 ^ 31.
  unfoldable pub syscall_handler : ℕ → Thread → W → Outcome W
  syscall_handler esp p w = checked esp w (
      reading esp w (
        if not (ltb (word esp w) 20)
        then exited minus_one
        else (if word esp w == 1
            then checked (arg_ptr esp 1) w (reading (arg_ptr esp 1) w (exited (arg esp 1 w)))
            else call (get_or syscalls (word esp w) none) esp (record p { current_esp = esp }) w)))
