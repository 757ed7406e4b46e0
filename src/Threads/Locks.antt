-- ===== src/Threads/Locks.antt =====
-- What each change of a lock does to the threads that are inside it.
use pintos_lab.Base.{
  ℕ, ◌+◌, ◌-◌, ◌≡◌, refl, ◌≤◌, Bool, true, false, ◌||◌, Option, none, some, ◌==◌, arith, Bool-cases,
  inl, inr, ◌∙◌,
}
use pintos_lab.Threads.State.{Pc, free, downing, acquiring, taken, releasing, update}
use pintos_lab.Threads.Synch.{holds}

-- Between the decrement of the lock's semaphore and the write of the holder, or between the erasure
-- of the holder and the increment.
abbrev pub at_lock : ℕ → Pc → Bool
at_lock l free = false
at_lock l (downing s) = false
at_lock l (acquiring m) = false
at_lock l (taken m) = m == l
at_lock l (releasing m) = m == l

-- Thread `t` has lock `l`.
abbrev pub inside : (ℕ → Pc) → (ℕ → Option ℕ) → ℕ → ℕ → Bool
inside pc holder l t = at_lock l (pc t) || holds t (holder l)

-- No two threads are inside a lock, its semaphore is at most 1, and 0 while a thread is inside; at
-- the two places of `at_lock` it has no holder.
pub record IsExclusive (in_lock : ℕ → Bool) (pc : ℕ → Pc) (value : ℕ → ℕ) (holder : ℕ → Option ℕ)
    : Type 0 where
  pub alone :
      (l t u : ℕ)
      → in_lock l ≡ true
      → inside pc holder l t ≡ true
      → inside pc holder l u ≡ true
      → t ≡ u
  pub closed : (l t : ℕ) → in_lock l ≡ true → inside pc holder l t ≡ true → value l ≡ 0
  pub low : (l : ℕ) → in_lock l ≡ true → value l ≤ 1
  pub between : (l t : ℕ) → in_lock l ≡ true → at_lock l (pc t) ≡ true → holder l ≡ none

module _ (in_lock : ℕ → Bool) (pc : ℕ → Pc) (value : ℕ → ℕ) (holder : ℕ → Option ℕ)
    (x : IsExclusive in_lock pc value holder) where
  -- A thread moves to a place outside of locks, from such a place or not.
  pub move-IsExclusive :
      (t : ℕ) (c : Pc)
      → ((l : ℕ) → at_lock l c ≡ false)
      → IsExclusive in_lock (update pc t c) value holder
  move-IsExclusive t c out = record {
    alone = λ l u w i p q. x.alone l u w i (ground (arith, p, out l)) (ground (arith, q, out l));
    closed = λ l u i p. x.closed l u i (ground (arith, p, out l));
    low = x.low;
    between = λ l u i p. x.between l u i (ground (arith, p, out l));
  }

  -- A semaphore that is in no lock changes its value.
  pub other-IsExclusive :
      (s n : ℕ) → in_lock s ≡ false → IsExclusive in_lock pc (update value s n) holder
  other-IsExclusive s n o = record {
    alone = x.alone;
    closed = λ l u i p. ground (arith, x.closed l u i p, i, o);
    low = λ l i. ground (arith, x.low l i, i, o);
    between = x.between;
  }

  -- Where the semaphore is not 0, nobody is inside.
  open_outside :
      (l t : ℕ) → in_lock l ≡ true → (value l == 0) ≡ false → inside pc holder l t ≡ false
  open_outside l t i n = elim (Bool-cases (inside pc holder l t)) [
    | inl p ↦ (let z = x.closed l t i p in ground (arith, z, n))
    | inr p ↦ p
  ]

  open_holder : (l : ℕ) → in_lock l ≡ true → (value l == 0) ≡ false → holder l ≡ none
  open_holder l i n = from (holder l) (λ t. open_outside l t i n)
    where
      from : (h : Option ℕ) → ((t : ℕ) → (at_lock l (pc t) || holds t h) ≡ false) → h ≡ none
      from none o = refl
      from (some t) o = let c = o t in ground (arith, c)

  -- `sema_down` of the lock's semaphore is over.
  pub taken-IsExclusive :
      (l t : ℕ)
      → in_lock l ≡ true
      → (value l == 0) ≡ false
      → IsExclusive in_lock (update pc t (taken l)) (update value l (value l - 1)) holder
  taken-IsExclusive l t i n = record {
    alone = λ m u w j p q. elim (Bool-cases (l == m)) [
      | inl e ↦ ground (arith, open_outside l u i n, open_outside l w i n, e, p, q)
      | inr e ↦ x.alone m u w j (ground (arith, p, e)) (ground (arith, q, e))
    ];
    closed = λ m u j p. elim (Bool-cases (l == m)) [
      | inl e ↦ ground (arith, x.low l i, e, n)
      | inr e ↦ (let z = x.closed m u j (ground (arith, p, e)) in ground (arith, z, e))
    ];
    low = λ m j. ground (arith, x.low m j);
    between = λ m u j p. elim (Bool-cases (l == m)) [
      | inl e ↦ ground (arith, open_holder l i n, e)
      | inr e ↦ x.between m u j (ground (arith, p, e))
    ];
  }

  -- The holder is written.
  pub held-IsExclusive :
      (l t : ℕ)
      → in_lock l ≡ true
      → pc t ≡ taken l
      → IsExclusive in_lock (update pc t free) value (update holder l (some t))
  held-IsExclusive l t i e =
      let mine : inside pc holder l t ≡ true = ground (arith, e) in
      record {
        alone = λ m u w j p q. elim (Bool-cases (l == m)) [
          | inl f ↦ ground (arith, x.alone l u t i, x.alone l w t i, f, p, q, mine, e)
          | inr f ↦ x.alone m u w j (ground (arith, p, f)) (ground (arith, q, f))
        ];
        closed = λ m u j p. elim (Bool-cases (l == m)) [
          | inl f ↦ ground (arith, x.closed l t i mine, f)
          | inr f ↦ x.closed m u j (ground (arith, p, f))
        ];
        low = x.low;
        between = λ m u j p. elim (Bool-cases (l == m)) [
          | inl f ↦ ground (arith, x.alone l u t i, f, p, mine, e)
          | inr f ↦ ground (arith, x.between m u j, p, f)
        ];
      }

  -- The holder is erased.
  pub erased-IsExclusive :
      (l t : ℕ)
      → in_lock l ≡ true
      → holds t (holder l) ≡ true
      → IsExclusive in_lock (update pc t (releasing l)) value (update holder l none)
  erased-IsExclusive l t i e =
      let mine : inside pc holder l t ≡ true = ground (arith, e) in
      record {
        alone = λ m u w j p q. elim (Bool-cases (l == m)) [
          | inl f ↦ ground (arith, x.alone l u t i, x.alone l w t i, f, p, q, mine, e)
          | inr f ↦ x.alone m u w j (ground (arith, p, f)) (ground (arith, q, f))
        ];
        closed = λ m u j p. elim (Bool-cases (l == m)) [
          | inl f ↦ ground (arith, x.closed l t i mine, f)
          | inr f ↦ x.closed m u j (ground (arith, p, f))
        ];
        low = x.low;
        between = λ m u j p. ground (arith, x.between m u j, p);
      }

  -- The semaphore is raised.
  pub raised-IsExclusive :
      (l t : ℕ)
      → in_lock l ≡ true
      → pc t ≡ releasing l
      → IsExclusive in_lock (update pc t free) (update value l (value l + 1)) holder
  raised-IsExclusive l t i e =
      let mine : inside pc holder l t ≡ true = ground (arith, e) in
      let none_holds : holder l ≡ none = x.between l t i (ground (arith, e)) in
      record {
        alone = λ m u w j p q. elim (Bool-cases (l == m)) [
          | inl f ↦ ground (arith, x.alone l u t i, f, p, mine, none_holds)
          | inr f ↦ x.alone m u w j (ground (arith, p, f)) (ground (arith, q, f))
        ];
        closed = λ m u j p. elim (Bool-cases (l == m)) [
          | inl f ↦ ground (arith, x.alone l u t i, f, p, mine, none_holds)
          | inr f ↦ (let z = x.closed m u j (ground (arith, p, f)) in ground (arith, z, f))
        ];
        low = λ m j. ground (arith, x.low m j, x.closed l t i mine);
        between = λ m u j p. elim (Bool-cases (l == m)) [
          | inl f ↦ ground (arith, none_holds, f)
          | inr f ↦ x.between m u j (ground (arith, p, f))
        ];
      }

-- The values are read at each semaphore.
pub same-IsExclusive :
    (in_lock : ℕ → Bool) (pc : ℕ → Pc) (value value' : ℕ → ℕ) (holder : ℕ → Option ℕ)
    → ((s : ℕ) → value' s ≡ value s)
    → IsExclusive in_lock pc value holder
    → IsExclusive in_lock pc value' holder
same-IsExclusive in_lock pc value value' holder e x = record {
  alone = x.alone;
  closed = λ l t i p. e l ∙ x.closed l t i p;
  low = λ l i. (let a = e l in let b = x.low l i in omega arith);
  between = x.between;
}
