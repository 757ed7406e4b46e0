-- ===== src/Threads/Schedule.antt =====
-- pintos/threads/thread.c: the ready list and the switch from one thread to the next. Interrupts
-- are off in all of these functions: a call is one step. `none` is a failed ASSERT.
use pintos_lab.Base.{
  ℕ, not, ◌&&◌, Option, none, some, List, [], ◌∷◌, ◌++◌, ◌==◌, if◌then◌else◌, assert, ◌>>◌,
}
use pintos_lab.Threads.State.{
  free, running, ready, blocked, dying, Kernel, update, set_status, set_pc, is_running, is_blocked,
  is_dying, is_thread,
}

-- `next_thread_to_run`, with the ready list after it
unfoldable pub next_thread_to_run : List ℕ → ℕ → ℕ × List ℕ
next_thread_to_run [] idle = (idle, [])
next_thread_to_run (t ∷ ts) idle = (t, ts)

-- `thread_schedule_tail`: the memory of a thread that was dying is freed.
unfoldable pub thread_schedule_tail : Option ℕ → Kernel → Kernel
thread_schedule_tail none k = set_status k.current running k
thread_schedule_tail (some prev) k =
    let k' = set_status k.current running k in
    if is_dying (k'.status prev) && not (prev == k.initial_thread)
    then record k' { status = update k'.status prev none }
    else k'

-- `schedule`; `switch_threads` makes the next thread the current one.
unfoldable pub schedule : Kernel → Option Kernel
schedule k = do
  let (next, rest) = next_thread_to_run k.ready_list k.idle_thread
  assert (not (is_running (k.status k.current)))
  assert (is_thread (k.status next))
  some (
      thread_schedule_tail (if k.current == next then none else some k.current)
        (record k { ready_list = rest; current = next }))

unfoldable pub thread_block : Kernel → Option Kernel
thread_block k = schedule (set_status k.current blocked k)

unfoldable pub thread_unblock : ℕ → Kernel → Option Kernel
thread_unblock t k = do
  assert (is_blocked (k.status t))
  some (set_status t ready (record k { ready_list = k.ready_list ++ (t ∷ []) }))

unfoldable pub thread_yield : Kernel → Option Kernel
thread_yield k =
    let queued =
      if k.current == k.idle_thread
      then k
      else record k { ready_list = k.ready_list ++ (k.current ∷ []) } in
    schedule (set_status k.current ready queued)

-- The end of `thread_exit`, behind what it does for its parent and its files.
unfoldable pub thread_exit : Kernel → Option Kernel
thread_exit k = schedule (set_status k.current dying k)

-- What `thread_create` does to the state above: `init_thread` of a page `t`, and `thread_unblock`.
unfoldable pub thread_create : ℕ → Kernel → Option Kernel
thread_create t k = thread_unblock t (set_pc t free (set_status t blocked k))
