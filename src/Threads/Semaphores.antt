-- ===== src/Threads/Semaphores.antt =====
-- Waiting for a semaphore, waking a thread, and the steps that only move the current thread on.
use pintos_lab.Base.{
  ℕ, ◌+◌, ◌-◌, ◌≡◌, refl, ◌≢◌, true, false, ◌&&◌, Option, none, some, List, [], ◌∷◌, ◌++◌, ◌==◌,
  arith, Bool-cases, inl, inr, ap, subst, ◌∙◌,
}
use pintos_lab.Threads.State.{
  Status, running, ready, blocked, dying, Pc, Kernel, update, set_status, set_pc, set_sema,
  is_running, is_ready, is_blocked, is_dying, waits,
}
use pintos_lab.Threads.Schedule.{thread_block, thread_unblock}
use pintos_lab.Threads.Synch.{sema_down_round, wake_first, sema_up}
use pintos_lab.Threads.Lists.{has, Unique, has-append, Unique-append}
use pintos_lab.Threads.Invariant.{IsValid, schedule-IsValid}
use pintos_lab.Threads.Operations.{Kept, waits_one, current_only}

module _ (k : Kernel) (v : IsValid k) where
  -- The current thread stands elsewhere, not in the loop of `sema_down`.
  pub pc-IsValid : (c : Pc) → ((s : ℕ) → waits s c ≡ false) → IsValid (set_pc k.current c k)
  pc-IsValid c n =
      let (r, b, d, l) = current_only k v in
      record {
        running_is = v.running_is;
        ready_is = v.ready_is;
        waiting_is = λ s t. ground (arith, v.waiting_is s t, b, n s);
        ready_once = v.ready_once;
        waiting_once = v.waiting_once;
        idle_lives = v.idle_lives;
        idle_stays = v.idle_stays;
        idle_waits = λ s. ground (arith, v.idle_waits s, n s);
      }

  pub value-IsValid : (s n : ℕ) → IsValid (set_sema s (record (k.semas s) { value = n }) k)
  value-IsValid s n = record {
    running_is = v.running_is;
    ready_is = v.ready_is;
    waiting_is = λ r t. ground (arith, v.waiting_is r t);
    ready_once = v.ready_once;
    waiting_once = λ r. unchanged r (v.waiting_once r);
    idle_lives = v.idle_lives;
    idle_stays = v.idle_stays;
    idle_waits = v.idle_waits;
  }
    where
      unchanged :
          (r : ℕ)
          → Unique (k.semas r).waiters
          → Unique (update k.semas s (record (k.semas s) { value = n }) r).waiters
      unchanged r u = subst Unique (ground arith) u

  pub holder-IsValid : (h : ℕ → Option ℕ) → IsValid (record k { holder = h })
  holder-IsValid h = record {
    running_is = v.running_is;
    ready_is = v.ready_is;
    waiting_is = v.waiting_is;
    ready_once = v.ready_once;
    waiting_once = v.waiting_once;
    idle_lives = v.idle_lives;
    idle_stays = v.idle_stays;
    idle_waits = v.idle_waits;
  }

  -- The current thread joins the waiters of `s`, and gives up the processor.
  wait_on : ℕ → Pc → Kernel
  wait_on s c =
      set_pc k.current c
        (set_sema s (record (k.semas s) { waiters = (k.semas s).waiters ++ (k.current ∷ []) }) k)

  joined_once :
      (s r : ℕ)
      → Unique
          (update k.semas s
            (record (k.semas s) { waiters = (k.semas s).waiters ++ (k.current ∷ []) })
            r).waiters
  joined_once s r = elim (Bool-cases (s == r)) [
    | inl e ↦ rw e (
        Unique-append k.current (k.semas s).waiters
          (let (rd, b, d, l) = current_only k v in ground (arith, v.waiting_is s k.current, b))
          (v.waiting_once s))
    | inr e ↦ rw e (v.waiting_once r)
  ]

  wait_on-Kept :
      (s : ℕ) (c : Pc)
      → k.current ≢ k.idle_thread
      → ((r : ℕ) → waits r c ≡ (s == r))
      → Kept (thread_block (wait_on s c))
  unfolding thread_block wait_on
  wait_on-Kept s c ne w =
      let (r, b, d, l) = current_only k v in
      schedule-IsValid (set_status k.current blocked (wait_on s c)) (record {
        running_is = λ t. ground (arith, v.running_is t);
        ready_is = λ t. ground (arith, v.ready_is t, r);
        waiting_is = λ q t. ground (
          arith,
          v.waiting_is q t,
          b,
          w q,
          has-append t k.current (k.semas s).waiters,
          v.waiting_is s t,
        );
        ready_once = v.ready_once;
        waiting_once = joined_once s;
        idle_lives = ground (arith, v.idle_lives);
        idle_stays = ground (arith, v.idle_stays);
        idle_waits = λ q. ground (arith, v.idle_waits q);
      })

-- A round of the loop of `sema_down`.
pub down-Kept :
    (k : Kernel) (v : IsValid k) (wait done : Pc) (s : ℕ)
    → k.current ≢ k.idle_thread
    → ((r : ℕ) → waits r wait ≡ (s == r))
    → ((r : ℕ) → waits r done ≡ false)
    → Kept (sema_down_round wait done s k)
unfolding sema_down_round wait_on
down-Kept k v wait done s ne w n =
    let lower : Kernel = set_sema s (record (k.semas s) { value = (k.semas s).value - 1 }) k in
    elim (Bool-cases ((k.semas s).value == 0)) [
      | inl e ↦ rw e (wait_on-Kept k v s wait ne w)
      | inr e ↦ rw e (
        set_pc k.current done lower,
        refl,
        pc-IsValid lower (value-IsValid k v s ((k.semas s).value - 1)) done n,
      )
    ]

-- The state in which `t` has been woken from the semaphore `s`, where `ts` still wait.
unfoldable pub woken : ℕ → ℕ → List ℕ → Kernel → Kernel
woken s t ts k = set_status t ready (record k {
  semas = update k.semas s (record (k.semas s) { waiters = ts });
  ready_list = k.ready_list ++ (t ∷ []);
})

module _ (k : Kernel) (v : IsValid k) (s t : ℕ) (ts : List ℕ)
    (q : (k.semas s).waiters ≡ t ∷ ts) where
  first_waits : (is_blocked (k.status t) && waits s (k.pc t)) ≡ true
  first_waits =
      let i : has t (k.semas s).waiters ≡ true = ap (has t) q ∙ ground arith in
      ground (arith, i, v.waiting_is s t)

  first_blocked : is_blocked (k.status t) ≡ true
  first_blocked = ground (arith, first_waits)

  only_blocked :
      (st : Option Status)
      → is_blocked st ≡ true
      → (is_ready st ≡ false) × (is_running st ≡ false) × (is_dying st ≡ false)
  only_blocked none h = cc
  only_blocked (some running) h = cc
  only_blocked (some ready) h = cc
  only_blocked (some blocked) h = (refl, refl, refl)
  only_blocked (some dying) h = cc

  not_idle : (t == k.idle_thread) ≡ false
  not_idle = let i = v.idle_waits s in ground (arith, first_waits, i)

  woken-waiting :
      (r u : ℕ)
      → has u ((woken s t ts k).semas r).waiters
        ≡ (is_blocked ((woken s t ts k).status u) && waits r ((woken s t ts k).pc u))
  unfolding woken
  woken-waiting r u =
      let once = subst Unique q (v.waiting_once s) in
      let split = ap (has u) q in
      let one = waits_one s r (k.pc t) (ground (arith, first_waits)) in
      ground (arith, once.0, split, v.waiting_is r u, v.waiting_is s u, first_waits, one)

  woken_once : (r : ℕ) → Unique ((woken s t ts k).semas r).waiters
  unfolding woken
  woken_once r = elim (Bool-cases (s == r)) [
    | inl e ↦ rw e (subst Unique q (v.waiting_once s)).1
    | inr e ↦ rw e (v.waiting_once r)
  ]

  woken-IsValid : IsValid (woken s t ts k)
  unfolding woken
  woken-IsValid =
      let (rd, rn, dy) = only_blocked (k.status t) first_blocked in
      record {
        running_is = λ u. ground (arith, v.running_is u, rn);
        ready_is = λ u. ground (arith, v.ready_is u, has-append u t k.ready_list, not_idle, rd);
        waiting_is = woken-waiting;
        ready_once = Unique-append t k.ready_list (ground (arith, v.ready_is t, rd)) v.ready_once;
        waiting_once = woken_once;
        idle_lives = ground (arith, v.idle_lives, not_idle);
        idle_stays = ground (arith, v.idle_stays, not_idle);
        idle_waits = v.idle_waits;
      }

  pub up_woken :
      sema_up s k
      ≡ some (
          set_sema s
            (record ((woken s t ts k).semas s) { value = ((woken s t ts k).semas s).value + 1 })
            (woken s t ts k))
  unfolding sema_up wake_first thread_unblock woken
  up_woken = ground (arith, q, first_blocked)

up_from :
    (k : Kernel) (v : IsValid k) (s : ℕ) (list : List ℕ)
    → (k.semas s).waiters ≡ list
    → Kept (sema_up s k)
unfolding sema_up wake_first
up_from k v s [] e = (
  set_sema s (record (k.semas s) { value = (k.semas s).value + 1 }) k,
  ground (arith, e),
  value-IsValid k v s ((k.semas s).value + 1),
)
up_from k v s (t ∷ ts) e =
    let raised = ((woken s t ts k).semas s).value + 1 in
    (
      set_sema s (record ((woken s t ts k).semas s) { value = raised }) (woken s t ts k),
      up_woken k v s t ts e,
      value-IsValid (woken s t ts k) (woken-IsValid k v s t ts e) s raised,
    )

pub up-Kept : (k : Kernel) → IsValid k → (s : ℕ) → Kept (sema_up s k)
up-Kept k v s = up_from k v s (k.semas s).waiters refl
