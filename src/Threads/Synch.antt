-- ===== src/Threads/Synch.antt =====
-- pintos/threads/synch.c: semaphores and locks. A thread that waits in `sema_down` gives up the
-- processor there, so the loop is modelled round by round: a thread that runs again makes the next.
use pintos_lab.Base.{
  ℕ, ◌+◌, ◌-◌, Bool, true, false, not, Option, none, some, List, [], ◌∷◌, ◌++◌, ◌==◌, if◌then◌else◌,
  assert, ◌>>=◌, ◌>>◌,
}
use pintos_lab.Threads.State.{
  Pc, free, acquiring, taken, releasing, Kernel, update, set_pc, set_sema,
}
use pintos_lab.Threads.Schedule.{thread_block, thread_unblock}

unfoldable pub sema_init : ℕ → ℕ → Kernel → Kernel
sema_init s value k = set_sema s (record { value = value; waiters = [] }) k

-- One round of the loop of `sema_down`, and the decrement behind it: the thread stands at `wait`
-- while it waits and at `done` after.
unfoldable pub sema_down_round : Pc → Pc → ℕ → Kernel → Option Kernel
sema_down_round wait done s k =
    let sema = k.semas s in
    if sema.value == 0
    then thread_block (
        set_pc k.current wait
          (set_sema s (record sema { waiters = sema.waiters ++ (k.current ∷ []) }) k))
    else some (set_pc k.current done (set_sema s (record sema { value = sema.value - 1 }) k))

unfoldable pub sema_try_down : ℕ → Kernel → Bool × Kernel
sema_try_down s k =
    let sema = k.semas s in
    if sema.value == 0
    then (false, k)
    else (true, set_sema s (record sema { value = sema.value - 1 }) k)

-- The thread that `sema_up` wakes is the first that waits.
unfoldable pub wake_first : ℕ → List ℕ → Kernel → Option Kernel
wake_first s [] k = some k
wake_first s (t ∷ ts) k = thread_unblock t (set_sema s (record (k.semas s) { waiters = ts }) k)

unfoldable pub sema_up : ℕ → Kernel → Option Kernel
sema_up s k = do
  woken ← wake_first s (k.semas s).waiters k
  some (set_sema s (record (woken.semas s) { value = (woken.semas s).value + 1 }) woken)

unfoldable pub lock_init : ℕ → Kernel → Kernel
lock_init l k = sema_init l 1 (record k { holder = update k.holder l none })

abbrev pub holds : ℕ → Option ℕ → Bool
holds t none = false
holds t (some u) = u == t

unfoldable pub lock_held_by_current_thread : ℕ → Kernel → Bool
lock_held_by_current_thread l k = holds k.current (k.holder l)

-- `lock_acquire`, up to the end of a round in `sema_down`.
unfoldable pub lock_acquire : ℕ → Kernel → Option Kernel
lock_acquire l k = do
  assert (not (lock_held_by_current_thread l k))
  sema_down_round (acquiring l) (taken l) l k

-- The end of `lock_acquire`.
unfoldable pub lock_taken : ℕ → Kernel → Kernel
lock_taken l k = set_pc k.current free (record k { holder = update k.holder l (some k.current) })

-- `lock_try_acquire`: the thread has the lock, but is not its holder yet, if it succeeds.
unfoldable pub lock_try_acquire : ℕ → Kernel → Option (Bool × Kernel)
lock_try_acquire l k = do
  assert (not (lock_held_by_current_thread l k))
  let (success, k') = sema_try_down l k
  some (success, (if success then set_pc k'.current (taken l) k' else k'))

-- `lock_release`, up to the call of `sema_up`, and that call.
unfoldable pub lock_release : ℕ → Kernel → Option Kernel
lock_release l k = do
  assert (lock_held_by_current_thread l k)
  some (set_pc k.current (releasing l) (record k { holder = update k.holder l none }))

unfoldable pub lock_released : ℕ → Kernel → Option Kernel
lock_released l k = sema_up l (set_pc k.current free k)
