-- ===== src/Process/Arguments.antt =====
-- pintos/userprog/process.c: `push_argument`, which lays the arguments of a program on its stack.
-- A pointer is a 32-bit number, in the memory of `Clib.Strings`; `none` is a failed assertion, a
-- store outside of the array `argv`, or the end of the fuel of a loop.
pub mod Frame
pub mod Strings
pub mod Rounds
pub mod Push
pub mod Examples
use pintos_lab.Base.{
  ℕ, zero, suc, ◌+◌, ◌-◌, ◌*◌, ◌^◌, ◌%◌, ◌/◌, Bool, true, false, not, ◌&&◌, ◌||◌, Option, none,
  some, List, [], ◌∷◌, ◌++◌, ltb, leb, ◌==◌, if◌then◌else◌, assert, ◌>>=◌, ◌>>◌, length,
}
use pintos_lab.Clib.Strings.{Memory, store, strtok_r, strlen, memcpy}

-- `*esp`, and the memory.
pub record Stack : Type 0 where
  pub esp : ℕ
  pub memory : Memory

-- `esp - n` on 32 bits
abbrev pub below : ℕ → ℕ → ℕ
below esp n = (esp + 2 ^ 32 - n) % 2 ^ 32

-- The four bytes of a word, the lowest first.
unfoldable pub store_word : ℕ → ℕ → Memory → Memory
store_word p w mem =
    store (p + 3) (w / 16777216 % 256)
      (store (p + 2) (w / 65536 % 256) (store (p + 1) (w / 256 % 256) (store p (w % 256) mem)))

unfoldable pub push_word : ℕ → Stack → Stack
push_word w s = record { esp = below s.esp 4; memory = store_word (below s.esp 4) w s.memory }

-- Words, the last one first.
unfoldable pub push_words : List ℕ → Stack → Stack
push_words [] s = s
push_words (w ∷ ws) s = push_word w (push_words ws s)

-- The alignment of `*esp`, the pointers of `argv` with the null pointer behind them, their address,
-- their number and the return address.
unfoldable pub push_frame : List ℕ → Stack → Stack
push_frame argv s =
    let pointers = push_words (argv ++ 0 ∷ []) (record s { esp = s.esp / 4 * 4 }) in
    push_word 0 (push_word (length argv) (push_word pointers.esp pointers))

-- The loop over the tokens, with the pointers in `argv` so far; `m` is the fuel of the string
-- functions.
unfoldable pub copy_tokens : ℕ → ℕ → ℕ → ℕ → ℕ → List ℕ → Stack → Option (List ℕ × Stack)
copy_tokens zero m spaces token save_ptr argv s = none
copy_tokens (suc n) m spaces token save_ptr argv s =
    let copy = (do
      len ← strlen m token s.memory
      let esp = below s.esp (len + 1)
      (p, copied) ← memcpy esp token (len + 1) s.memory
      assert (ltb (length argv) 50)
      (next_token, next_save_ptr, memory) ← strtok_r m 0 spaces save_ptr copied
      copy_tokens n m spaces next_token next_save_ptr (argv ++ esp ∷ [])
          (record { esp = esp; memory = memory })) in
    if token == 0 then some (argv, s) else copy

-- `spaces` is the address of the string of one space.
unfoldable pub push_argument : ℕ → ℕ → ℕ → Stack → Option Stack
push_argument n spaces cmdline s = do
  (token, save_ptr, memory) ← strtok_r n cmdline spaces 0 s.memory
  (argv, s') ← copy_tokens n n spaces token save_ptr [] (record s { memory = memory })
  assert (ltb (length argv) 50)
  some (push_frame argv s')
