-- ===== src/Devices/Intq.antt =====
-- pintos/devices/intq.c: a circular buffer of bytes shared by threads and interrupt handlers.
-- Interrupts are off. The lock, which lets only one thread wait at a time, is left out.
pub mod Fifo
pub mod Examples
use pintos_lab.Base.{
  ℕ, ◌+◌, ◌%◌, Bool, true, false, not, Option, none, some, ◌==◌, if◌then◌else◌, assert, ◌>>=◌, ◌>>◌,
}

-- `struct intq`; the threads that wait, if any
pub record Intq : Type 0 where
  pub not_full : Option ℕ
  pub not_empty : Option ℕ
  pub buf : ℕ → ℕ
  pub head : ℕ
  pub tail : ℕ

abbrev pub intq_bufsize : ℕ
intq_bufsize = 64

unfoldable pub intq_init : Intq → Intq
intq_init q = record q { not_full = none; not_empty = none; head = 0; tail = 0 }

abbrev pub next : ℕ → ℕ
next pos = (pos + 1) % intq_bufsize

abbrev pub intq_empty : Intq → Bool
intq_empty q = q.head == q.tail

abbrev pub intq_full : Intq → Bool
intq_full q = next q.head == q.tail

-- A round of the loop either puts the thread to sleep or ends the function, with its result and the
-- thread that is woken.
pub data Outcome (A : Type 0) : Type 0 where
  sleeps : Intq → Outcome A
  returns : A → Option ℕ → Intq → Outcome A

-- `intq_getc` up to its end or to the call of `thread_block` in `wait`; `current` is the thread,
-- `intr_context` says whether the caller is an interrupt handler.
unfoldable pub intq_getc : Bool → ℕ → Intq → Option (Outcome ℕ)
intq_getc intr_context current q =
    if intq_empty q
    then (do assert (not intr_context); some (sleeps (record q { not_empty = some current })))
    else some (returns (q.buf q.tail) q.not_full (record q { tail = next q.tail; not_full = none }))

unfoldable pub intq_putc : Bool → ℕ → ℕ → Intq → Option (Outcome (Unit {0}))
intq_putc intr_context current byte q =
    if intq_full q
    then (do assert (not intr_context); some (sleeps (record q { not_full = some current })))
    else some (
        returns tt q.not_empty (record q {
          buf = λ i. if q.head == i then byte else q.buf i;
          head = next q.head;
          not_empty = none;
        }))
