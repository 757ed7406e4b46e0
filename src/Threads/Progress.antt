-- ===== src/Threads/Progress.antt =====
-- Every allowed step of a valid state ends in a valid state.
use pintos_lab.Base.{
  ℕ, ◌-◌, ◌≡◌, refl, ◌≢◌, Bool, true, false, Option, none, some, ◌==◌, arith, Bool-cases, inl, inr,
  subst,
}
use pintos_lab.Threads.State.{
  Status, Pc, free, downing, acquiring, taken, releasing, Kernel, update, set_pc, is_thread, waits,
}
use pintos_lab.Threads.Semaphores.{pc-IsValid, value-IsValid, holder-IsValid, down-Kept, up-Kept}
use pintos_lab.Threads.Step.{
  Action, yield, block_idle, exit, continue, create, down, up, try_down, acquire, try_acquire,
  release, go_on, perform, allowed, second, Step, does, Reach, here, next,
}
use pintos_lab.Threads.Synch.{
  lock_held_by_current_thread, lock_acquire, lock_taken, lock_try_acquire, lock_release,
  lock_released, sema_try_down,
}
use pintos_lab.Threads.Invariant.{IsValid}
use pintos_lab.Threads.Operations.{yield-Kept, block_idle-Kept, exit-Kept, create-Kept, Kept}

one_of : (s r : ℕ) → waits r (downing s) ≡ (s == r)
one_of s r = refl

try_down-IsValid : (k : Kernel) → IsValid k → (s : ℕ) → IsValid (sema_try_down s k).1
unfolding sema_try_down
try_down-IsValid k v s = elim (Bool-cases ((k.semas s).value == 0)) [
  | inl e ↦ rw e v
  | inr e ↦ rw e (value-IsValid k v s ((k.semas s).value - 1))
]

released-Kept : (k : Kernel) → IsValid k → (l : ℕ) → Kept (lock_released l k)
unfolding lock_released
released-Kept k v l = up-Kept (set_pc k.current free k) (pc-IsValid k v free (λ s. refl)) l

go_on-Kept : (c : Pc) (k : Kernel) → IsValid k → k.pc k.current ≡ c → Kept (go_on c k)
unfolding go_on lock_taken
go_on-Kept free k v e = (k, refl, v)
go_on-Kept (downing s) k v e =
    let still = v.idle_waits s in
    down-Kept k v (downing s) free s (λ i. ground (arith, e, i, still)) (λ r. refl) (λ r. refl)
go_on-Kept (acquiring l) k v e =
    let still = v.idle_waits l in
    down-Kept k v (acquiring l) (taken l) l (λ i. ground (arith, e, i, still)) (λ r. refl)
      (λ r. refl)
go_on-Kept (taken l) k v e =
    let held = update k.holder l (some k.current) in
    (
      set_pc k.current free (record k { holder = held }),
      refl,
      pc-IsValid (record k { holder = held }) (holder-IsValid k v held) free (λ s. refl),
    )
go_on-Kept (releasing l) k v e = released-Kept k v l

acquire-Kept :
    (k : Kernel)
    → IsValid k
    → (l : ℕ) → k.current ≢ k.idle_thread
    → lock_held_by_current_thread l k ≡ false
    → Kept (lock_acquire l k)
unfolding lock_acquire
acquire-Kept k v l ne h = rw h (down-Kept k v (acquiring l) (taken l) l ne (λ r. refl) (λ r. refl))

try_acquire-Kept :
    (k : Kernel)
    → IsValid k
    → (l : ℕ) → lock_held_by_current_thread l k ≡ false
    → Kept (second (lock_try_acquire l k))
unfolding lock_try_acquire
try_acquire-Kept k v l h = rw h (elim (Bool-cases (sema_try_down l k).0) [
  | inl e ↦ rw e (
    set_pc (sema_try_down l k).1.current (taken l) (sema_try_down l k).1,
    refl,
    pc-IsValid (sema_try_down l k).1 (try_down-IsValid k v l) (taken l) (λ s. refl),
  )
  | inr e ↦ rw e ((sema_try_down l k).1, refl, try_down-IsValid k v l)
])

release-Kept :
    (k : Kernel)
    → IsValid k
    → (l : ℕ) → lock_held_by_current_thread l k ≡ true
    → Kept (lock_release l k)
unfolding lock_release
release-Kept k v l h =
    let held = update k.holder l none in
    (
      set_pc k.current (releasing l) (record k { holder = held }),
      rw h,
      pc-IsValid (record k { holder = held }) (holder-IsValid k v held) (releasing l) (λ s. refl),
    )

-- In a valid state, every allowed action of the running thread ends without a failed assertion,
-- and the state after it is valid: the current thread alone runs, the ready list holds the ready
-- threads but the idle one, each once, and the waiters of a semaphore are the blocked threads that
-- stand in its `sema_down`, each once.
pub perform-Kept :
    (in_lock : ℕ → Bool) (a : Action) (k : Kernel)
    → IsValid k
    → allowed in_lock a k ≡ true
    → Kept (perform a k)
unfolding perform allowed
perform-Kept in_lock yield k v h = yield-Kept k v
perform-Kept in_lock block_idle k v h = block_idle-Kept k v (ground arith)
perform-Kept in_lock exit k v h = exit-Kept k v (λ e. ground (arith, h, e))
perform-Kept in_lock continue k v h = go_on-Kept (k.pc k.current) k v refl
perform-Kept in_lock (create t) k v h = create-Kept k v t (no_thread (k.status t) (ground arith))
  where
    no_thread : (s : Option Status) → is_thread s ≡ false → s ≡ none
    no_thread none n = refl
    no_thread (some s) n = cc
perform-Kept in_lock (down s) k v h =
    down-Kept k v (downing s) free s (λ e. ground (arith, h, e)) (λ r. refl) (λ r. refl)
perform-Kept in_lock (up s) k v h = up-Kept k v s
perform-Kept in_lock (try_down s) k v h = ((sema_try_down s k).1, refl, try_down-IsValid k v s)
perform-Kept in_lock (acquire l) k v h =
    acquire-Kept k v l (λ e. ground (arith, h, e)) (ground arith)
perform-Kept in_lock (try_acquire l) k v h = try_acquire-Kept k v l (ground arith)
perform-Kept in_lock (release l) k v h = release-Kept k v l (ground arith)

pub Step-IsValid : (in_lock : ℕ → Bool) (k k' : Kernel) → Step in_lock k k' → IsValid k → IsValid k'
Step-IsValid in_lock k k' (does a h e) v =
    let (end, f, w) = perform-Kept in_lock a k v h in
    let same : end ≡ k' = ground (arith, f, e) in subst IsValid same w

-- Every state that the kernel reaches from a valid state is valid.
pub Reach-IsValid :
    (in_lock : ℕ → Bool) (k : Kernel) {k' : Kernel} → Reach in_lock k k' → IsValid k → IsValid k'
Reach-IsValid in_lock k here v = v
Reach-IsValid in_lock k (next r s) v = Step-IsValid in_lock _ _ s (Reach-IsValid in_lock k r v)
