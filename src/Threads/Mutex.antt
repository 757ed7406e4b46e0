-- ===== src/Threads/Mutex.antt =====
-- What switches, waits and rounds of `sema_down` do to the threads inside of locks.
use pintos_lab.Base.{
  ℕ, ◌+◌, ◌-◌, ◌≡◌, refl, Bool, true, false, not, Option, some, List, [], ◌∷◌, ◌++◌, ◌==◌, arith,
  Bool-cases, inl, inr, ap, sym, subst, ◌∙◌,
}
use pintos_lab.Threads.State.{
  ready, blocked, dying, Pc, free, downing, acquiring, taken, releasing, Kernel, update, set_status,
  set_pc, set_sema,
}
use pintos_lab.Threads.Schedule.{
  schedule, next_thread_to_run, thread_schedule_tail, thread_block, thread_unblock, thread_yield,
  thread_exit, thread_create,
}
use pintos_lab.Threads.Synch.{sema_down_round, wake_first, sema_up}
use pintos_lab.Threads.Locks.{
  at_lock, IsExclusive, move-IsExclusive, other-IsExclusive, taken-IsExclusive, same-IsExclusive,
}

-- The values of the semaphores.
abbrev pub values : Kernel → ℕ → ℕ
values k s = (k.semas s).value

-- A thread stands in `sema_down` of a semaphore that is in no lock, and in the functions of locks.
abbrev pub fits : (ℕ → Bool) → Pc → Bool
fits in_lock free = true
fits in_lock (downing s) = not (in_lock s)
fits in_lock (acquiring l) = in_lock l
fits in_lock (taken l) = in_lock l
fits in_lock (releasing l) = in_lock l

pub record AreLocked (in_lock : ℕ → Bool) (k : Kernel) : Type 0 where
  pub exclusive : IsExclusive in_lock k.pc (values k) k.holder
  pub placed : (t : ℕ) → fits in_lock (k.pc t) ≡ true

-- The places, the holders and the values are as given.
pub record IsView (pc : ℕ → Pc) (value : ℕ → ℕ) (holder : ℕ → Option ℕ) (k : Kernel) : Type 0 where
  pub places : k.pc ≡ pc
  pub holders : k.holder ≡ holder
  pub counts : (s : ℕ) → values k s ≡ value s

pub view-AreLocked :
    (in_lock : ℕ → Bool) (pc : ℕ → Pc) (value : ℕ → ℕ) (holder : ℕ → Option ℕ) (k : Kernel)
    → IsView pc value holder k
    → IsExclusive in_lock pc value holder
    → ((t : ℕ) → fits in_lock (pc t) ≡ true)
    → AreLocked in_lock k
view-AreLocked in_lock pc value holder k w x f = record {
  exclusive = same-IsExclusive in_lock k.pc value (values k) k.holder w.counts (
      subst (λ (p : ℕ → Pc). IsExclusive in_lock p value k.holder) (sym w.places)
        (subst (λ (h : ℕ → Option ℕ). IsExclusive in_lock pc value h) (sym w.holders) x));
  placed = λ t. ap (λ (p : ℕ → Pc). fits in_lock (p t)) w.places ∙ f t;
}

-- A switch changes none of them.
pub schedule-IsView : (k k' : Kernel) → schedule k ≡ some k' → IsView k.pc (values k) k.holder k'
unfolding schedule next_thread_to_run thread_schedule_tail
schedule-IsView k k' e = from k.ready_list refl
  where
    from : (list : List ℕ) → k.ready_list ≡ list → IsView k.pc (values k) k.holder k'
    from [] q = record {
      places = ground (arith, e, q);
      holders = ground (arith, e, q);
      counts = λ s. ground (arith, e, q);
    }
    from (t ∷ ts) q = record {
      places = ground (arith, e, q);
      holders = ground (arith, e, q);
      counts = λ s. ground (arith, e, q);
    }

pub up-IsView :
    (s : ℕ) (k k' : Kernel)
    → sema_up s k ≡ some k'
    → IsView k.pc (update (values k) s (values k s + 1)) k.holder k'
unfolding sema_up wake_first thread_unblock
up-IsView s k k' e = from (k.semas s).waiters refl
  where
    from :
        (list : List ℕ)
        → (k.semas s).waiters ≡ list
        → IsView k.pc (update (values k) s (values k s + 1)) k.holder k'
    from [] q = record {
      places = ground (arith, e, q);
      holders = ground (arith, e, q);
      counts = λ r. ground (arith, e, q);
    }
    from (t ∷ ts) q = record {
      places = ground (arith, e, q);
      holders = ground (arith, e, q);
      counts = λ r. ground (arith, e, q);
    }

module _ (in_lock : ℕ → Bool) (k : Kernel) (a : AreLocked in_lock k) where
  -- After a change of nothing that the locks depend on.
  pub kept : (k' : Kernel) → IsView k.pc (values k) k.holder k' → AreLocked in_lock k'
  kept k' w = view-AreLocked in_lock k.pc (values k) k.holder k' w a.exclusive a.placed

  pub moved :
      (t : ℕ) (c : Pc) → fits in_lock c ≡ true → (u : ℕ) → fits in_lock (update k.pc t c u) ≡ true
  moved t c f u = ground (arith, f, a.placed u)

  -- A thread goes to a place outside of locks.
  pub gone :
      (t : ℕ) (c : Pc) (k' : Kernel)
      → ((l : ℕ) → at_lock l c ≡ false)
      → fits in_lock c ≡ true
      → IsView (update k.pc t c) (values k) k.holder k'
      → AreLocked in_lock k'
  gone t c k' out f w =
      view-AreLocked in_lock (update k.pc t c) (values k) k.holder k' w
        (move-IsExclusive in_lock k.pc (values k) k.holder a.exclusive t c out) (moved t c f)

  pub yield-AreLocked : (k' : Kernel) → thread_yield k ≡ some k' → AreLocked in_lock k'
  unfolding thread_yield
  yield-AreLocked k' e = elim (Bool-cases (k.current == k.idle_thread)) [
    | inl i ↦ kept k' (schedule-IsView (set_status k.current ready k) k' (ground (arith, e, i)))
    | inr n ↦ kept k' (
        schedule-IsView
          (set_status k.current ready (record k { ready_list = k.ready_list ++ (k.current ∷ []) }))
          k' (ground (arith, e, n)))
  ]

  pub block-AreLocked : (k' : Kernel) → thread_block k ≡ some k' → AreLocked in_lock k'
  unfolding thread_block
  block-AreLocked k' e = kept k' (schedule-IsView (set_status k.current blocked k) k' e)

  pub exit-AreLocked : (k' : Kernel) → thread_exit k ≡ some k' → AreLocked in_lock k'
  unfolding thread_exit
  exit-AreLocked k' e = kept k' (schedule-IsView (set_status k.current dying k) k' e)

  pub create-AreLocked : (t : ℕ) (k' : Kernel) → thread_create t k ≡ some k' → AreLocked in_lock k'
  unfolding thread_create thread_unblock
  create-AreLocked t k' e =
      gone t free k' (λ l. refl) refl
        (record {
          places = ground (arith, e);
          holders = ground (arith, e);
          counts = λ s. ground (arith, e);
        })

  -- The wait of a round in `sema_down`.
  wait-AreLocked :
      (c : Pc) (s : ℕ) (k' : Kernel)
      → ((l : ℕ) → at_lock l c ≡ false)
      → fits in_lock c ≡ true
      → thread_block (
          set_pc k.current c (
            set_sema s
              (record (k.semas s) { waiters = (k.semas s).waiters ++ (k.current ∷ []) })
              k))
        ≡ some k'
      → AreLocked in_lock k'
  unfolding thread_block
  wait-AreLocked c s k' out f e =
      let waiting : Kernel =
        set_pc k.current c (
          set_sema s (record (k.semas s) { waiters = (k.semas s).waiters ++ (k.current ∷ []) })
            k) in
      let w = schedule-IsView (set_status k.current blocked waiting) k' e in
      gone k.current c k' out f (record {
        places = w.places;
        holders = w.holders;
        counts = λ r. (let q = w.counts r in ground (arith, q));
      })

  -- A round for a semaphore that is in no lock.
  pub down-AreLocked :
      (s : ℕ) (k' : Kernel)
      → in_lock s ≡ false
      → sema_down_round (downing s) free s k ≡ some k'
      → AreLocked in_lock k'
  unfolding sema_down_round
  down-AreLocked s k' o e = elim (Bool-cases ((k.semas s).value == 0)) [
    | inl z ↦ wait-AreLocked (downing s) s k' (λ l. refl) (ground (arith, o)) (ground (arith, e, z))
    | inr n ↦
        view-AreLocked in_lock (update k.pc k.current free) (update (values k) s (values k s - 1))
          k.holder k'
          (record {
            places = ground (arith, e, n);
            holders = ground (arith, e, n);
            counts = λ r. ground (arith, e, n);
          })
          (move-IsExclusive in_lock k.pc (update (values k) s (values k s - 1)) k.holder
            (other-IsExclusive in_lock k.pc (values k) k.holder a.exclusive s (values k s - 1) o)
            k.current free (λ l. refl))
          (moved k.current free refl)
  ]

  -- A round for the semaphore of a lock.
  pub acquire-AreLocked :
      (l : ℕ) (k' : Kernel)
      → in_lock l ≡ true
      → sema_down_round (acquiring l) (taken l) l k ≡ some k'
      → AreLocked in_lock k'
  unfolding sema_down_round
  acquire-AreLocked l k' i e = elim (Bool-cases ((k.semas l).value == 0)) [
    | inl z ↦ wait-AreLocked (acquiring l) l k' (λ m. refl) i (ground (arith, e, z))
    | inr n ↦
        view-AreLocked in_lock (update k.pc k.current (taken l))
          (update (values k) l (values k l - 1)) k.holder k'
          (record {
            places = ground (arith, e, n);
            holders = ground (arith, e, n);
            counts = λ r. ground (arith, e, n);
          })
          (taken-IsExclusive in_lock k.pc (values k) k.holder a.exclusive l k.current i n)
          (moved k.current (taken l) i)
  ]
