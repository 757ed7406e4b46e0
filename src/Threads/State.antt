-- ===== src/Threads/State.antt =====
-- The state of thread.c and synch.c. A `struct thread`, a semaphore and a lock are known by their
-- addresses; a lock has the address of the semaphore in it.
use pintos_lab.Base.{ℕ, Bool, true, false, Option, none, some, List, ◌==◌, if◌then◌else◌}

-- `enum thread_status`
pub data Status : Type 0 where
  running ready blocked dying : Status

-- Where a thread stands in the functions that can be interrupted: elsewhere; in the loop of
-- `sema_down`; in that of `lock_acquire`; in `lock_acquire` behind it, before the holder is
-- written; in `lock_release`, between the holder and `sema_up`.
pub data Pc : Type 0 where
  free : Pc
  downing : ℕ → Pc
  acquiring : ℕ → Pc
  taken : ℕ → Pc
  releasing : ℕ → Pc

-- `struct semaphore`
pub record Semaphore : Type 0 where
  pub value : ℕ
  pub waiters : List ℕ

-- `status` is `none` where there is no thread. `holder` is that of the locks.
pub record Kernel : Type 0 where
  pub status : ℕ → Option Status
  pub pc : ℕ → Pc
  pub ready_list : List ℕ
  pub current : ℕ
  pub idle_thread : ℕ
  pub initial_thread : ℕ
  pub semas : ℕ → Semaphore
  pub holder : ℕ → Option ℕ

abbrev pub update {ℓ} : {A : Type ℓ} → (ℕ → A) → ℕ → A → ℕ → A
update f k v j = if k == j then v else f j

abbrev pub set_status : ℕ → Status → Kernel → Kernel
set_status t s k = record k { status = update k.status t (some s) }

abbrev pub set_pc : ℕ → Pc → Kernel → Kernel
set_pc t c k = record k { pc = update k.pc t c }

abbrev pub set_sema : ℕ → Semaphore → Kernel → Kernel
set_sema s v k = record k { semas = update k.semas s v }

abbrev pub is_running : Option Status → Bool
is_running none = false
is_running (some running) = true
is_running (some ready) = false
is_running (some blocked) = false
is_running (some dying) = false

abbrev pub is_ready : Option Status → Bool
is_ready none = false
is_ready (some running) = false
is_ready (some ready) = true
is_ready (some blocked) = false
is_ready (some dying) = false

abbrev pub is_blocked : Option Status → Bool
is_blocked none = false
is_blocked (some running) = false
is_blocked (some ready) = false
is_blocked (some blocked) = true
is_blocked (some dying) = false

abbrev pub is_dying : Option Status → Bool
is_dying none = false
is_dying (some running) = false
is_dying (some ready) = false
is_dying (some blocked) = false
is_dying (some dying) = true

-- `is_thread`
abbrev pub is_thread : Option Status → Bool
is_thread none = false
is_thread (some s) = true

-- The thread at `c` waits for semaphore `s`, if it is blocked.
abbrev pub waits : ℕ → Pc → Bool
waits s free = false
waits s (downing r) = r == s
waits s (acquiring l) = l == s
waits s (taken l) = false
waits s (releasing l) = false

-- The loop of `sema_down`, where interrupts are off.
abbrev pub in_loop : Pc → Bool
in_loop free = false
in_loop (downing r) = true
in_loop (acquiring l) = true
in_loop (taken l) = false
in_loop (releasing l) = false

abbrev pub is_free : Pc → Bool
is_free free = true
is_free (downing r) = false
is_free (acquiring l) = false
is_free (taken l) = false
is_free (releasing l) = false
