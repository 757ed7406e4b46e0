-- ===== src/Threads/Operations.antt =====
-- Each operation of the running thread ends without a failed assertion, in a valid state.
use pintos_lab.Base.{
  ℕ, ◌≡◌, refl, ◌≢◌, true, false, Option, none, some, [], ◌∷◌, ◌++◌, ◌==◌, arith, Bool-cases, inl,
  inr,
}
use pintos_lab.Threads.State.{
  Status, running, ready, blocked, dying, Pc, free, downing, acquiring, taken, releasing, Kernel,
  set_status, set_pc, is_running, is_ready, is_blocked, is_dying, is_thread, waits,
}
use pintos_lab.Threads.Schedule.{
  thread_block, thread_unblock, thread_yield, thread_exit, thread_create,
}
use pintos_lab.Threads.Lists.{has-append, Unique-append}
use pintos_lab.Threads.Invariant.{IsValid, schedule-IsValid}

-- The operation does not fail, and its end is valid.
abbrev pub Kept : Option Kernel → Type 0
Kept r = (k : Kernel) × (r ≡ some k) × IsValid k

only_running :
    (s : Option Status)
    → is_running s ≡ true
    → (is_ready s ≡ false) × (is_blocked s ≡ false) × (is_dying s ≡ false) × (is_thread s ≡ true)
only_running none h = cc
only_running (some running) h = (refl, refl, refl, refl)
only_running (some ready) h = cc
only_running (some blocked) h = cc
only_running (some dying) h = cc

pub waits_one : (s r : ℕ) (c : Pc) → waits s c ≡ true → waits r c ≡ (s == r)
waits_one s r free h = cc
waits_one s r (downing q) h = ground arith
waits_one s r (acquiring l) h = ground arith
waits_one s r (taken l) h = cc
waits_one s r (releasing l) h = cc

module _ (k : Kernel) (v : IsValid k) where
  pub current_runs : is_running (k.status k.current) ≡ true
  current_runs = ground (arith, v.running_is k.current)

  pub current_only :
      (is_ready (k.status k.current) ≡ false)
      × (is_blocked (k.status k.current) ≡ false)
      × (is_dying (k.status k.current) ≡ false)
      × (is_thread (k.status k.current) ≡ true)
  current_only = only_running (k.status k.current) current_runs

  -- The current thread gives up the processor, with a status that is in no list.
  pub exit-Kept : k.current ≢ k.idle_thread → Kept (thread_exit k)
  unfolding thread_exit
  exit-Kept ne =
      let (r, b, d, l) = current_only in
      schedule-IsValid (set_status k.current dying k) (record {
        running_is = λ t. ground (arith, v.running_is t);
        ready_is = λ t. ground (arith, v.ready_is t, r);
        waiting_is = λ s t. ground (arith, v.waiting_is s t, b);
        ready_once = v.ready_once;
        waiting_once = v.waiting_once;
        idle_lives = ground (arith, v.idle_lives);
        idle_stays = ground (arith, v.idle_stays);
        idle_waits = v.idle_waits;
      })

  pub block_idle-Kept : k.current ≡ k.idle_thread → Kept (thread_block k)
  unfolding thread_block
  block_idle-Kept e =
      let (r, b, d, l) = current_only in
      schedule-IsValid (set_status k.current blocked k) (record {
        running_is = λ t. ground (arith, v.running_is t);
        ready_is = λ t. ground (arith, v.ready_is t, r);
        waiting_is = λ s t. ground (arith, v.waiting_is s t, b, v.idle_waits s, e);
        ready_once = v.ready_once;
        waiting_once = v.waiting_once;
        idle_lives = ground (arith, v.idle_lives);
        idle_stays = ground (arith, v.idle_stays);
        idle_waits = v.idle_waits;
      })

  pub yield-Kept : Kept (thread_yield k)
  unfolding thread_yield
  yield-Kept =
      let (r, b, d, l) = current_only in
      elim (Bool-cases (k.current == k.idle_thread)) [
        | inl e ↦ rw e (
            schedule-IsValid (set_status k.current ready k) (record {
              running_is = λ t. ground (arith, v.running_is t);
              ready_is = λ t. ground (arith, v.ready_is t, r, e);
              waiting_is = λ s t. ground (arith, v.waiting_is s t, b);
              ready_once = v.ready_once;
              waiting_once = v.waiting_once;
              idle_lives = ground (arith, v.idle_lives);
              idle_stays = ground (arith, v.idle_stays);
              idle_waits = v.idle_waits;
            }))
        | inr e ↦ rw e (
            schedule-IsValid
              (set_status k.current ready
                (record k { ready_list = k.ready_list ++ (k.current ∷ []) }))
              (record {
                running_is = λ t. ground (arith, v.running_is t);
                ready_is =
                    λ t. ground (arith, v.ready_is t, has-append t k.current k.ready_list, r, e);
                waiting_is = λ s t. ground (arith, v.waiting_is s t, b);
                ready_once =
                    Unique-append k.current k.ready_list (ground (arith, v.ready_is k.current, r))
                      v.ready_once;
                waiting_once = v.waiting_once;
                idle_lives = ground (arith, v.idle_lives);
                idle_stays = ground (arith, v.idle_stays);
                idle_waits = v.idle_waits;
              }))
      ]

  pub create-Kept : (t : ℕ) → k.status t ≡ none → Kept (thread_create t k)
  unfolding thread_create thread_unblock
  create-Kept t n =
      let new : Kernel = set_pc t free (set_status t blocked k) in
      let made : Kernel =
        set_status t ready (record new { ready_list = k.ready_list ++ (t ∷ []) }) in
      let idle : (t == k.idle_thread) ≡ false = ground (arith, n, v.idle_lives) in
      (
        made,
        ground arith,
        record {
          running_is = λ u. ground (arith, v.running_is u, n);
          ready_is = λ u. ground (arith, v.ready_is u, has-append u t k.ready_list, n, idle);
          waiting_is = λ s u. ground (arith, v.waiting_is s u, n);
          ready_once = Unique-append t k.ready_list (ground (arith, v.ready_is t, n)) v.ready_once;
          waiting_once = v.waiting_once;
          idle_lives = ground (arith, v.idle_lives, idle);
          idle_stays = ground (arith, v.idle_stays, idle);
          idle_waits = λ s. ground (arith, v.idle_waits s, idle);
        },
      )
