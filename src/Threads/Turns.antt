-- ===== src/Threads/Turns.antt =====
-- The ready list is served in order.
use pintos_lab.Base.{
  ℕ, zero, suc, ◌+◌, ◌≡◌, refl, sym, ap, ◌∙◌, Option, some, List, [], ◌∷◌, ◌++◌, ◌==◌, length,
  ◌>>=◌, arith, Bool-cases, inl, inr,
}
use mathlib.Core.List.{append_assoc, append-nil}
use pintos_lab.Threads.State.{ready, Kernel, set_status}
use pintos_lab.Threads.Schedule.{next_thread_to_run, thread_schedule_tail, schedule, thread_yield}
use pintos_lab.Threads.Synch.{sema_up}
use pintos_lab.Threads.Invariant.{IsValid}
use pintos_lab.Threads.Operations.{yield-Kept}
use pintos_lab.Threads.Semaphores.{woken, up_woken}

-- A run in which each thread that gets the processor yields it.
unfoldable pub yields : ℕ → Kernel → Option Kernel
yields zero k = some k
yields (suc n) k = do k' ← thread_yield k; yields n k'

schedule-next :
    (x : ℕ) (xs : List ℕ) (k k' : Kernel)
    → k.ready_list ≡ x ∷ xs
    → schedule k ≡ some k'
    → (k'.current ≡ x) × (k'.ready_list ≡ xs)
unfolding schedule next_thread_to_run thread_schedule_tail
schedule-next x xs k k' q e = ground (arith, q, e)

yield-next :
    (x : ℕ) (xs : List ℕ) (k k' : Kernel)
    → k.ready_list ≡ x ∷ xs
    → thread_yield k ≡ some k'
    → (ys : List ℕ) × (k'.current ≡ x) × (k'.ready_list ≡ xs ++ ys)
unfolding thread_yield
yield-next x xs k k' q e = elim (Bool-cases (k.current == k.idle_thread)) [
  | inl i ↦
      let (c, l) = schedule-next x xs (set_status k.current ready k) k' q (ground (arith, e, i)) in
      ([], c, l ∙ sym (append-nil xs))
  | inr n ↦
      let (c, l) =
        schedule-next x (xs ++ (k.current ∷ []))
          (set_status k.current ready (record k { ready_list = k.ready_list ++ (k.current ∷ []) }))
          k' (ap (λ (l : List ℕ). l ++ (k.current ∷ [])) q) (ground (arith, e, n)) in
      (k.current ∷ [], c, l)
]

-- In a valid state, a thread that stands in the ready list behind `n` others is the current one
-- after `n + 1` threads, one after the other, have yielded the processor.
pub yields-turn :
    (xs : List ℕ) (t : ℕ) (ys : List ℕ) (k : Kernel)
    → IsValid k
    → k.ready_list ≡ xs ++ (t ∷ ys)
    → (k' : Kernel) × (yields (suc (length xs)) k ≡ some k') × (k'.current ≡ t)
unfolding yields
yields-turn [] t ys k v q =
    let (k', e, w) = yield-Kept k v in let (zs, c, l) = yield-next t ys k k' q e in (k', rw e, c)
yields-turn (x ∷ xs) t ys k v q =
    let (k', e, w) = yield-Kept k v in
    let (zs, c, l) = yield-next x (xs ++ (t ∷ ys)) k k' q e in
    let (k'', f, d) = yields-turn xs t (ys ++ zs) k' w (l ∙ append_assoc xs (t ∷ ys) zs) in
    (k'', rw e f, d)

-- In a valid state in which `t` waits first for a semaphore, `sema_up` raises the value, takes `t`
-- alone from the waiters, and puts it, ready to run, at the end of the ready list; the current
-- thread goes on.
pub sema_up-wakes_first :
    (k : Kernel) (s t : ℕ) (ts : List ℕ)
    → IsValid k
    → (k.semas s).waiters ≡ t ∷ ts
    → (k' : Kernel) × (sema_up s k ≡ some k')
      × (k'.semas s ≡ record { value = (k.semas s).value + 1; waiters = ts })
      × (k'.ready_list ≡ k.ready_list ++ (t ∷ []))
      × (k'.status t ≡ some ready)
      × (k'.current ≡ k.current)
unfolding woken
sema_up-wakes_first k s t ts v q =
    (_, up_woken k v s t ts q, ground arith, refl, ground arith, refl)
