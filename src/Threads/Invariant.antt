-- ===== src/Threads/Invariant.antt =====
-- Every thread is where its status says, in the ready list or among the waiters of one semaphore.
use pintos_lab.Base.{
  ℕ, ◌≡◌, refl, Bool, true, false, not, ◌&&◌, Option, none, some, List, [], ◌∷◌, ◌==◌,
  if◌then◌else◌, arith, ap, sym, subst, ◌∙◌,
}
use pintos_lab.Threads.State.{
  Status, running, ready, blocked, dying, Pc, Semaphore, Kernel, is_running, is_ready, is_blocked,
  is_dying, is_thread, waits,
}
use pintos_lab.Threads.Schedule.{next_thread_to_run, thread_schedule_tail, schedule}
use pintos_lab.Threads.Lists.{has, Unique}

-- The threads that run are those of `runs`: the current one, or none at the entry of `schedule`.
-- The idle thread is never in the ready list, and never waits for a semaphore.
pub record IsValidWith (runs : ℕ → Bool) (k : Kernel) : Type 0 where
  pub running_is : (t : ℕ) → is_running (k.status t) ≡ runs t
  pub ready_is : (t : ℕ) → has t k.ready_list ≡ (is_ready (k.status t) && not (t == k.idle_thread))
  pub waiting_is :
      (s t : ℕ) → has t (k.semas s).waiters ≡ (is_blocked (k.status t) && waits s (k.pc t))
  pub ready_once : Unique k.ready_list
  pub waiting_once : (s : ℕ) → Unique (k.semas s).waiters
  pub idle_lives : is_thread (k.status k.idle_thread) ≡ true
  pub idle_stays : is_dying (k.status k.idle_thread) ≡ false
  pub idle_waits : (s : ℕ) → waits s (k.pc k.idle_thread) ≡ false

abbrev pub IsValid : Kernel → Type 0
IsValid k = IsValidWith (λ t. k.current == t) k

-- The state after the switch to `next`.
abbrev switched : ℕ → List ℕ → Kernel → Kernel
switched next rest k =
    thread_schedule_tail (if k.current == next then none else some k.current)
      (record k { ready_list = rest; current = next })

module _ (next : ℕ) (rest : List ℕ) (k : Kernel) where
  tail_rest :
      ((switched next rest k).ready_list ≡ rest)
      × ((switched next rest k).current ≡ next)
      × ((switched next rest k).pc ≡ k.pc)
      × ((switched next rest k).semas ≡ k.semas)
      × ((switched next rest k).idle_thread ≡ k.idle_thread)
  unfolding thread_schedule_tail
  tail_rest = ground arith

  tail_running :
      (t : ℕ)
      → is_running (k.status t) ≡ false
      → is_running ((switched next rest k).status t) ≡ (next == t)
  unfolding thread_schedule_tail
  tail_running t h = ground arith

  tail_ready :
      (t : ℕ)
      → is_ready ((switched next rest k).status t) ≡ (is_ready (k.status t) && not (next == t))
  unfolding thread_schedule_tail
  tail_ready t = ground arith

  tail_blocked :
      (t : ℕ)
      → is_blocked ((switched next rest k).status t) ≡ (is_blocked (k.status t) && not (next == t))
  unfolding thread_schedule_tail
  tail_blocked t = ground arith

  tail_lives :
      (t : ℕ)
      → is_thread (k.status t) ≡ true
      → is_dying (k.status t) ≡ false
      → (is_thread ((switched next rest k).status t) ≡ true)
        × (is_dying ((switched next rest k).status t) ≡ false)
  unfolding thread_schedule_tail
  tail_lives t h d = ground arith

  -- The state after a switch is valid if the list is the ready list without the next thread.
  switched-IsValid :
      IsValidWith (λ t. false) k
      → ((s : ℕ) → (is_blocked (k.status next) && waits s (k.pc next)) ≡ false)
      → has next rest ≡ false
      → ((t : ℕ)
          → (next == t) ≡ false
          → has t rest ≡ (is_ready (k.status t) && not (t == k.idle_thread)))
      → Unique rest
      → IsValid (switched next rest k)
  switched-IsValid v calm gone others once =
      let (list, cur, pcs, sems, idle) = tail_rest in
      record {
        running_is = λ t. ground (arith, cur, tail_running t, v.running_is t);
        ready_is = λ t. ground (arith, list, idle, tail_ready t, gone, others t);
        waiting_is = λ s t. ground (
          arith,
          tail_blocked t,
          calm s,
          v.waiting_is s t,
          ap (λ (g : ℕ → Pc). g t) pcs,
          ap (λ (g : ℕ → Semaphore). (g s).waiters) sems,
        );
        ready_once = subst Unique (sym list) once;
        waiting_once =
            λ s. subst (λ (g : ℕ → Semaphore). Unique (g s).waiters) (sym sems) (v.waiting_once s);
        idle_lives =
            ap (λ t. is_thread ((switched next rest k).status t)) idle
            ∙ (tail_lives k.idle_thread v.idle_lives v.idle_stays).0;
        idle_stays =
            ap (λ t. is_dying ((switched next rest k).status t)) idle
            ∙ (tail_lives k.idle_thread v.idle_lives v.idle_stays).1;
        idle_waits =
            λ s. ground (arith, idle, ap (λ (g : ℕ → Pc). g k.idle_thread) pcs, v.idle_waits s);
      }

lives_of_ready : (s : Option Status) → is_ready s ≡ true → is_thread s ≡ true
lives_of_ready none h = cc
lives_of_ready (some s) h = refl

calm_of_ready : (s : Option Status) → is_ready s ≡ true → is_blocked s ≡ false
calm_of_ready none h = refl
calm_of_ready (some running) h = refl
calm_of_ready (some ready) h = refl
calm_of_ready (some blocked) h = cc
calm_of_ready (some dying) h = refl

-- `schedule` with no running thread does not fail, and leaves a valid state.
schedule_from :
    (list : List ℕ) (k : Kernel)
    → k.ready_list ≡ list
    → IsValidWith (λ t. false) k
    → (k' : Kernel) × (schedule k ≡ some k') × IsValid k'
unfolding schedule next_thread_to_run
schedule_from [] k e v = (
  switched k.idle_thread [] k,
  ground (arith, e, v.running_is k.current, v.idle_lives),
  switched-IsValid k.idle_thread [] k v (λ s. ground (arith, v.idle_waits s)) refl
      (λ t n. ground (arith, ap (has t) e, v.ready_is t)) tt,
)
schedule_from (x ∷ xs) k e v =
    let (new, once) = subst Unique e v.ready_once in
    let is_in : has x k.ready_list ≡ true = ap (has x) e ∙ ground arith in
    let r : is_ready (k.status x) ≡ true = ground (arith, is_in, v.ready_is x) in
    (
      switched x xs k,
      ground (arith, e, v.running_is k.current, lives_of_ready (k.status x) r),
      switched-IsValid x xs k v (λ s. ground (arith, calm_of_ready (k.status x) r)) new
          (λ t n. ground (arith, ap (has t) e, v.ready_is t, n)) once,
    )

pub schedule-IsValid :
    (k : Kernel) → IsValidWith (λ t. false) k → (k' : Kernel) × (schedule k ≡ some k') × IsValid k'
schedule-IsValid k v = schedule_from k.ready_list k refl v
