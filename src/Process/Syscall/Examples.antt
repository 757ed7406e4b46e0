-- ===== src/Process/Syscall/Examples.antt =====
-- The theorems on system calls at concrete calls, over a machine that keeps the pages pinned and
-- closed files, with one file and a fixed user memory.
use pintos_lab.Base.{
  ℕ, ◌+◌, ◌/◌, ◌≡◌, refl, true, ltb, leb, ◌==◌, ◌&&◌, if◌then◌else◌, none, some, List, [], ◌∷◌,
  arith,
}
use pintos_lab.Process.Syscall.{
  Thread, World, returned, find_file, add_file, check_ptr, sys_open, sys_close, syscall_handler,
  init_thread, pin_pages, preload_and_pin_pages, unpin_preloaded_pages, arg_ptr, arg,
}
use pintos_lab.Process.Syscall.Table.{IsValid, Ordered, init_thread-IsValid}
use pintos_lab.Process.Syscall.Branches.{Keeps}
use pintos_lab.Process.Syscall.Handler.{syscall_handler-Keeps}
use pintos_lab.Process.Syscall.OpenClose.{sys_open-fresh, sys_close-Closed, Closed}
use pintos_lab.Process.Syscall.Pages.{preload_each_page, each_page, load_and_pin, pages_below}

abbrev Log : Type 0
Log = List ℕ

-- At 4096 the number of the call `open` or `close`, then its argument, the name's address or a
-- descriptor.
abbrev machine : ℕ → ℕ → World Log
machine number argument = record {
  mapped = λ va w. leb 4096 va && ltb va 12288;
  readable = λ va w. true;
  word = λ va w. if va == 4096 then number else argument;
  execute = λ name w. (1, w);
  wait = λ pid w. (0, w);
  create = λ name size w. (1, w);
  remove = λ name w. (1, w);
  open_file = λ name w. (some 77, w);
  file_length = λ file w. (10, w);
  file_read = λ file buffer size w. (size, w);
  file_write = λ file buffer size w. (size, w);
  file_seek = λ file position w. w;
  file_tell = λ file w. (0, w);
  file_close = λ file w. file ∷ w;
  putbuf = λ buffer size w. w;
  get_key = λ va w. w;
  load_page = λ va w. w;
  pin_page = λ va w. va ∷ w;
  unpin_page = λ va w. w;
}

-- Descriptors 2 and 4 are open.
abbrev two_open : Thread
two_open = record {
  files = record { fd = 2; file = 50 } ∷ record { fd = 4; file = 51 } ∷ [];
  file_fd = 5;
  current_esp = 0;
}

two_open-IsValid : IsValid two_open
unfolding IsValid Ordered
two_open-IsValid = (omega arith, (omega arith, omega arith))

open_arg : check_ptr (machine 6 8192) (arg_ptr (machine 6 8192) 4096 1) [] ≡ true
unfolding check_ptr
open_arg = refl

open_name : check_ptr (machine 6 8192) (arg (machine 6 8192) 4096 1 []) [] ≡ true
unfolding check_ptr
open_name = refl

close_arg : check_ptr (machine 12 2) (arg_ptr (machine 12 2) 4096 1) [] ≡ true
unfolding check_ptr
close_arg = refl

added_arg : check_ptr (machine 12 5) (arg_ptr (machine 12 5) 4096 1) [] ≡ true
unfolding check_ptr
added_arg = refl

syscall_handler-Keeps_example : Keeps (syscall_handler (machine 6 8192) 4096 two_open [])
syscall_handler-Keeps_example =
    syscall_handler-Keeps (machine 6 8192) 4096 two_open [] two_open-IsValid (omega arith)

sys_close-Closed_example :
    (p' : Thread) × (w' : Log) × (sys_close (machine 12 2) 4096 two_open [] ≡ returned none p' w')
    × Closed (machine 12 2) 4 (arg (machine 12 2) 4096 1 []) two_open p'
sys_close-Closed_example =
    sys_close-Closed (machine 12 2) 4096 4 two_open [] two_open-IsValid close_arg refl

preload_each_page_example :
    (preload_and_pin_pages (machine 8 0) 5000 4000 []
      ≡ each_page
          (load_and_pin (machine 8 0))
          (pages_below (5000 + 4000) (5000 / 4096))
          (5000 / 4096)
          [])
    × (unpin_preloaded_pages (machine 8 0) 5000 4000 []
        ≡ each_page (λ va w. w) (pages_below (5000 + 4000) (5000 / 4096)) (5000 / 4096) [])
preload_each_page_example = preload_each_page (machine 8 0) 5000 4000 [] (omega arith)

-- The pages of the buffer from 5000 to 8999 are those at 4096 and 8192.
preload_two_pages : preload_and_pin_pages (machine 8 0) 5000 4000 [] ≡ 8192 ∷ 4096 ∷ []
unfolding preload_and_pin_pages pin_pages
preload_two_pages = refl

-- The first file that a new thread opens gets descriptor 2.
first_open :
    (sys_open (machine 6 8192) 4096 init_thread [] ≡ returned (some 2) (add_file 77 init_thread) [])
    × (find_file 2 (add_file 77 init_thread).files ≡ (
        if 2 == init_thread.file_fd
        then some (record { fd = 2; file = 77 })
        else find_file 2 init_thread.files))
first_open =
    sys_open-fresh (machine 6 8192) 4096 77 2 init_thread [] [] init_thread-IsValid open_arg refl
      open_name refl
