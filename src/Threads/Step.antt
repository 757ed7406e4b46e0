-- ===== src/Threads/Step.antt =====
-- The steps of the kernel: what the running thread does next, and the points at which the timer
-- takes the processor from it. Interrupts are off within one step.
use pintos_lab.Base.{ℕ, ◌≡◌, Bool, true, not, ◌&&◌, Option, none, some, ◌==◌}
use pintos_lab.Threads.State.{
  Pc, free, downing, acquiring, taken, releasing, Kernel, is_free, in_loop, is_thread,
}
use pintos_lab.Threads.Schedule.{thread_block, thread_yield, thread_exit, thread_create}
use pintos_lab.Threads.Synch.{
  sema_down_round, sema_try_down, sema_up, lock_held_by_current_thread, lock_acquire, lock_taken,
  lock_try_acquire, lock_release, lock_released,
}

-- `continue` goes on with the function in which the thread stands.
pub data Action : Type 0 where
  yield block_idle exit continue : Action
  create down up try_down acquire try_acquire release : ℕ → Action

unfoldable pub go_on : Pc → Kernel → Option Kernel
go_on free k = some k
go_on (downing s) k = sema_down_round (downing s) free s k
go_on (acquiring l) k = sema_down_round (acquiring l) (taken l) l k
go_on (taken l) k = some (lock_taken l k)
go_on (releasing l) k = lock_released l k

abbrev pub second : Option (Bool × Kernel) → Option Kernel
second none = none
second (some (b, k)) = some k

unfoldable pub perform : Action → Kernel → Option Kernel
perform yield k = thread_yield k
perform block_idle k = thread_block k
perform exit k = thread_exit k
perform continue k = go_on (k.pc k.current) k
perform (create t) k = thread_create t k
perform (down s) k = sema_down_round (downing s) free s k
perform (up s) k = sema_up s k
perform (try_down s) k = some (sema_try_down s k).1
perform (acquire l) k = lock_acquire l k
perform (try_acquire l) k = second (lock_try_acquire l k)
perform (release l) k = lock_release l k

-- When a thread may do it. `in_lock` tells the semaphores of locks, which only the functions of
-- locks touch. A thread acquires no lock that it holds, and releases none that it does not hold.
-- In the loop of `sema_down` interrupts are off. The idle thread never waits and never ends.
unfoldable pub allowed : (ℕ → Bool) → Action → Kernel → Bool
allowed in_lock yield k = not (in_loop (k.pc k.current))
allowed in_lock block_idle k = is_free (k.pc k.current) && (k.current == k.idle_thread)
allowed in_lock exit k = is_free (k.pc k.current) && not (k.current == k.idle_thread)
allowed in_lock continue k = true
allowed in_lock (create t) k = is_free (k.pc k.current) && not (is_thread (k.status t))
allowed in_lock (down s) k =
    is_free (k.pc k.current) && not (k.current == k.idle_thread) && not (in_lock s)
allowed in_lock (up s) k = not (in_loop (k.pc k.current)) && not (in_lock s)
allowed in_lock (try_down s) k = not (in_loop (k.pc k.current)) && not (in_lock s)
allowed in_lock (acquire l) k =
    is_free (k.pc k.current)
    && not (k.current == k.idle_thread)
    && in_lock l
    && not (lock_held_by_current_thread l k)
allowed in_lock (try_acquire l) k =
    is_free (k.pc k.current) && in_lock l && not (lock_held_by_current_thread l k)
allowed in_lock (release l) k =
    is_free (k.pc k.current) && in_lock l && lock_held_by_current_thread l k

pub data Step (in_lock : ℕ → Bool) (k k' : Kernel) : Type 0 where
  does : (a : Action) → allowed in_lock a k ≡ true → perform a k ≡ some k' → Step in_lock k k'

pub data Reach (in_lock : ℕ → Bool) (k : Kernel) : Kernel → Type 0 where
  here : Reach in_lock k k
  next : {k' k'' : Kernel} → Reach in_lock k k' → Step in_lock k' k'' → Reach in_lock k k''
