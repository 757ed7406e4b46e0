-- ===== src/Threads/Examples.antt =====
-- A kernel with the initial thread 1, which runs, thread 2, which is ready, and the idle thread 9.
-- The semaphore at 5 is in a lock; the one at 7 is in none, and thread 3 waits for it.
use pintos_lab.Base.{
  ℕ, ◌≡◌, refl, Bool, true, Option, none, some, [], ◌∷◌, ◌==◌, if◌then◌else◌, arith,
}
use pintos_lab.Threads.State.{Status, running, ready, blocked, free, downing, taken, Kernel}
use pintos_lab.Threads.Synch.{
  sema_down_round, lock_acquire, lock_held_by_current_thread, lock_taken,
}
use pintos_lab.Threads.Step.{
  does, Reach, here, next, acquire, continue, perform, allowed, go_on, down,
}
use pintos_lab.Threads.Lists.{Unique}
use pintos_lab.Threads.Invariant.{IsValid}
use pintos_lab.Threads.Operations.{Kept}
use pintos_lab.Threads.Progress.{perform-Kept}
use pintos_lab.Threads.Mutex.{AreLocked, values}
use pintos_lab.Threads.Exclusion.{locks_exclude}
use pintos_lab.Threads.Turns.{yields, yields-turn}

abbrev in_lock : ℕ → Bool
in_lock s = s == 5

abbrev status_of : ℕ → Option Status
status_of t =
    if t == 1
    then some running
    else (if t == 2
        then some ready
        else (if t == 3 then some blocked else (if t == 9 then some blocked else none)))

abbrev kernel : Kernel
kernel = record {
  status = status_of;
  pc = λ t. if t == 3 then downing 7 else free;
  ready_list = 2 ∷ [];
  current = 1;
  idle_thread = 9;
  initial_thread = 1;
  semas = λ s.
      if s == 7 then record { value = 0; waiters = 3 ∷ [] } else record { value = 1; waiters = [] };
  holder = λ l. none;
}

waiting_once : (s : ℕ) → Unique (kernel.semas s).waiters
waiting_once s = ground arith

kernel-IsValid : IsValid kernel
kernel-IsValid = record {
  running_is = λ t. ground arith;
  ready_is = λ t. ground arith;
  waiting_is = λ s t. ground arith;
  ready_once = (refl, tt);
  waiting_once = waiting_once;
  idle_lives = refl;
  idle_stays = refl;
  idle_waits = λ s. refl;
}

may_wait : allowed in_lock (down 7) kernel ≡ true
unfolding allowed
may_wait = refl

perform-Kept_example : Kept (perform (down 7) kernel)
perform-Kept_example = perform-Kept in_lock (down 7) kernel kernel-IsValid may_wait

kernel-AreLocked : AreLocked in_lock kernel
kernel-AreLocked = record {
  exclusive = record {
    alone = λ l t u i p q. ground (arith, p, q);
    closed = λ l t i p. ground (arith, p);
    low = λ l i. ground arith;
    between = λ l t i p. refl;
  };
  placed = λ t. ground arith;
}

-- Thread 1 acquires the lock at 5.
abbrev held : Kernel
held = record kernel {
  pc = λ t. if 1 == t then free else (if 1 == t then taken 5 else kernel.pc t);
  semas = λ s. if 5 == s then record { value = 0; waiters = [] } else kernel.semas s;
  holder = λ l. if 5 == l then some 1 else none;
}

abbrev between : Kernel
between = record kernel {
  pc = λ t. if 1 == t then taken 5 else kernel.pc t;
  semas = λ s. if 5 == s then record { value = 0; waiters = [] } else kernel.semas s;
}

acquired : Reach in_lock kernel held
unfolding perform allowed lock_acquire lock_held_by_current_thread sema_down_round go_on lock_taken
acquired = next (next here (does (acquire 5) refl refl)) (does continue refl refl)

locks_exclude_example : (◌≡◌ {A = ℕ} 1 1) × (values held 5 ≡ 0)
locks_exclude_example =
    locks_exclude in_lock kernel held 5 1 1 kernel-AreLocked acquired refl refl refl

yields-turn_example : (k : Kernel) × (yields 1 kernel ≡ some k) × (k.current ≡ 2)
yields-turn_example = yields-turn [] 2 [] kernel kernel-IsValid refl
