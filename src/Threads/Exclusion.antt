-- ===== src/Threads/Exclusion.antt =====
-- Locks exclude: in every state that the kernel reaches, at most one thread is inside a lock.
use pintos_lab.Base.{
  ℕ, ◌+◌, ◌-◌, ◌≡◌, refl, Bool, true, false, none, some, ◌==◌, arith, Bool-cases, inl, inr, ap,
  subst,
}
use pintos_lab.Threads.State.{
  Pc, free, downing, acquiring, taken, releasing, Kernel, update, set_pc, set_sema,
}
use pintos_lab.Threads.Step.{
  Action, yield, block_idle, exit, continue, create, down, up, try_down, acquire, try_acquire,
  release, go_on, perform, allowed, second, Step, does, Reach, here, next,
}
use pintos_lab.Threads.Synch.{
  lock_held_by_current_thread, lock_acquire, lock_taken, lock_try_acquire, lock_release,
  lock_released, sema_try_down,
}
use pintos_lab.Threads.Locks.{
  inside, other-IsExclusive, taken-IsExclusive, held-IsExclusive, erased-IsExclusive,
  raised-IsExclusive,
}
use pintos_lab.Threads.Mutex.{
  values, fits, AreLocked, IsView, view-AreLocked, up-IsView, moved, yield-AreLocked,
  block-AreLocked, exit-AreLocked, create-AreLocked, down-AreLocked, acquire-AreLocked,
}

module _ (in_lock : ℕ → Bool) (k : Kernel) (a : AreLocked in_lock k) where
  -- A semaphore that is in no lock is raised or lowered.
  other-AreLocked :
      (s n : ℕ) (k' : Kernel)
      → in_lock s ≡ false
      → IsView k.pc (update (values k) s n) k.holder k'
      → AreLocked in_lock k'
  other-AreLocked s n k' o w =
      view-AreLocked in_lock k.pc (update (values k) s n) k.holder k' w
        (other-IsExclusive in_lock k.pc (values k) k.holder a.exclusive s n o) a.placed

  try_down-AreLocked : (s : ℕ) → in_lock s ≡ false → AreLocked in_lock (sema_try_down s k).1
  unfolding sema_try_down
  try_down-AreLocked s o = elim (Bool-cases ((k.semas s).value == 0)) [
    | inl z ↦ rw z a
    | inr n ↦ rw n (
        other-AreLocked s (values k s - 1)
          (set_sema s (record (k.semas s) { value = (k.semas s).value - 1 }) k) o
          (record { places = refl; holders = refl; counts = λ r. ground arith }))
  ]

  try_acquire-AreLocked :
      (l : ℕ) (k' : Kernel)
      → in_lock l ≡ true
      → lock_held_by_current_thread l k ≡ false
      → second (lock_try_acquire l k) ≡ some k'
      → AreLocked in_lock k'
  unfolding lock_try_acquire sema_try_down
  try_acquire-AreLocked l k' i h e = elim (Bool-cases ((k.semas l).value == 0)) [
    | inl z ↦ subst (AreLocked in_lock) (ground (arith, e, h, z)) a
    | inr n ↦
        view-AreLocked in_lock (update k.pc k.current (taken l))
          (update (values k) l (values k l - 1)) k.holder k'
          (record {
            places = ground (arith, e, n, h);
            holders = ground (arith, e, n, h);
            counts = λ r. ground (arith, e, n, h);
          })
          (taken-IsExclusive in_lock k.pc (values k) k.holder a.exclusive l k.current i n)
          (moved in_lock k a k.current (taken l) i)
  ]

  taken-AreLocked :
      (l : ℕ) → in_lock l ≡ true → k.pc k.current ≡ taken l → AreLocked in_lock (lock_taken l k)
  unfolding lock_taken
  taken-AreLocked l i e = record {
    exclusive = held-IsExclusive in_lock k.pc (values k) k.holder a.exclusive l k.current i e;
    placed = moved in_lock k a k.current free refl;
  }

  release-AreLocked :
      (l : ℕ) (k' : Kernel)
      → in_lock l ≡ true
      → lock_held_by_current_thread l k ≡ true
      → lock_release l k ≡ some k'
      → AreLocked in_lock k'
  unfolding lock_release lock_held_by_current_thread
  release-AreLocked l k' i h e =
      let held = update k.holder l none in
      let end : Kernel = set_pc k.current (releasing l) (record k { holder = held }) in
      let same : end ≡ k' = ground (arith, e, h) in
      subst (AreLocked in_lock) same (record {
        exclusive = erased-IsExclusive in_lock k.pc (values k) k.holder a.exclusive l k.current i h;
        placed = moved in_lock k a k.current (releasing l) i;
      })

  released-AreLocked :
      (l : ℕ) (k' : Kernel)
      → in_lock l ≡ true
      → k.pc k.current ≡ releasing l
      → lock_released l k ≡ some k'
      → AreLocked in_lock k'
  unfolding lock_released
  released-AreLocked l k' i p e =
      let w = up-IsView l (set_pc k.current free k) k' e in
      view-AreLocked in_lock (update k.pc k.current free) (update (values k) l (values k l + 1))
        k.holder k' w
        (raised-IsExclusive in_lock k.pc (values k) k.holder a.exclusive l k.current i p)
        (moved in_lock k a k.current free refl)

  here_fits : fits in_lock (k.pc k.current) ≡ true
  here_fits = a.placed k.current

  go_on-AreLocked :
      (c : Pc) (k' : Kernel) → k.pc k.current ≡ c → go_on c k ≡ some k' → AreLocked in_lock k'
  unfolding go_on
  go_on-AreLocked free k' p e = subst (AreLocked in_lock) (ground (arith, e)) a
  go_on-AreLocked (downing s) k' p e =
      down-AreLocked in_lock k a s k' (ground (arith, ap (fits in_lock) p, here_fits)) e
  go_on-AreLocked (acquiring l) k' p e =
      acquire-AreLocked in_lock k a l k' (ground (arith, ap (fits in_lock) p, here_fits)) e
  go_on-AreLocked (taken l) k' p e =
      subst (AreLocked in_lock) (ground (arith, e))
        (taken-AreLocked l (ground (arith, ap (fits in_lock) p, here_fits)) p)
  go_on-AreLocked (releasing l) k' p e =
      released-AreLocked l k' (ground (arith, ap (fits in_lock) p, here_fits)) p e

  perform-AreLocked :
      (c : Action) (k' : Kernel)
      → allowed in_lock c k ≡ true
      → perform c k ≡ some k'
      → AreLocked in_lock k'
  unfolding perform allowed lock_acquire
  perform-AreLocked yield k' h e = yield-AreLocked in_lock k a k' e
  perform-AreLocked block_idle k' h e = block-AreLocked in_lock k a k' e
  perform-AreLocked exit k' h e = exit-AreLocked in_lock k a k' e
  perform-AreLocked continue k' h e = go_on-AreLocked (k.pc k.current) k' refl e
  perform-AreLocked (create t) k' h e = create-AreLocked in_lock k a t k' e
  perform-AreLocked (down s) k' h e = down-AreLocked in_lock k a s k' (ground arith) e
  perform-AreLocked (up s) k' h e =
      other-AreLocked s (values k s + 1) k' (ground arith) (up-IsView s k k' e)
  perform-AreLocked (try_down s) k' h e =
      subst (AreLocked in_lock) (ground (arith, e)) (try_down-AreLocked s (ground arith))
  perform-AreLocked (acquire l) k' h e =
      acquire-AreLocked in_lock k a l k' (ground arith) (ground (arith, e, h))
  perform-AreLocked (try_acquire l) k' h e =
      try_acquire-AreLocked l k' (ground arith) (ground arith) e
  perform-AreLocked (release l) k' h e = release-AreLocked l k' (ground arith) (ground arith) e

Step-AreLocked :
    (in_lock : ℕ → Bool) {k k' : Kernel}
    → Step in_lock k k'
    → AreLocked in_lock k
    → AreLocked in_lock k'
Step-AreLocked in_lock (does c h e) a = perform-AreLocked in_lock _ a c _ h e

pub Reach-AreLocked :
    (in_lock : ℕ → Bool) {k k' : Kernel}
    → Reach in_lock k k'
    → AreLocked in_lock k
    → AreLocked in_lock k'
Reach-AreLocked in_lock here a = a
Reach-AreLocked in_lock (next r s) a = Step-AreLocked in_lock s (Reach-AreLocked in_lock r a)

-- From a state in which locks exclude, such as one in which they are all free, whatever the threads
-- do and however the timer switches between them: two threads that are inside one lock are the same
-- thread, and then the lock's semaphore is 0. A thread is inside from the end of `sema_down` in
-- `lock_acquire` or of `sema_try_down` in `lock_try_acquire` to `sema_up` in `lock_release`.
pub locks_exclude :
    (in_lock : ℕ → Bool) (k k' : Kernel) (l t u : ℕ)
    → AreLocked in_lock k
    → Reach in_lock k k'
    → in_lock l ≡ true
    → inside k'.pc k'.holder l t ≡ true
    → inside k'.pc k'.holder l u ≡ true
    → (t ≡ u) × (values k' l ≡ 0)
locks_exclude in_lock k k' l t u a r i p q =
    let b = Reach-AreLocked in_lock r a in
    (b.exclusive.alone l t u i p q, b.exclusive.closed l t i p)
