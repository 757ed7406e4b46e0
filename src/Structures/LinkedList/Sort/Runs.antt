-- ===== src/Structures/LinkedList/Sort/Runs.antt =====
-- Runs of elements in order: counting the places where a run ends, and finding them.
use pintos_lab.Base.{
  ℕ, zero, suc, ◌+◌, ◌≤◌, ◌<◌, ◌≡◌, refl, ap, Bool, true, false, some, List, [], ◌∷◌, ◌++◌, ◌==◌,
  if◌then◌else◌, arith, Bool-cases, inl, inr, length,
}
use pintos_lab.Structures.LinkedList.{Elems, LinkedList}
use pintos_lab.Structures.LinkedList.Holds.{IsList, first_of}
use pintos_lab.Structures.LinkedList.Walk.{
  neighbours, next_at, prev_at, ne_later, moved_on, not_tail, tail_not_null,
}
use pintos_lab.Structures.LinkedList.Sort.{sorted_loop, is_sorted, run_loop, find_end_of_run}

module _ (less : ℕ → ℕ → Bool) where
  -- How often an element is less than the one before it.
  abbrev pub descents_from : ℕ → List ℕ → ℕ
  descents_from y [] = 0
  descents_from y (z ∷ zs) = (if less z y then 1 else 0) + descents_from z zs

  abbrev pub descents : List ℕ → ℕ
  descents [] = 0
  descents (y ∷ ys) = descents_from y ys

  -- The first element, if any, may come behind `p`.
  abbrev pub Fits : ℕ → List ℕ → Type 0
  Fits p [] = Unit
  Fits p (x ∷ xs) = less x p ≡ false

  pub Fits-cons : (p : ℕ) (xs : List ℕ) → Fits p xs → descents xs ≡ 0 → descents (p ∷ xs) ≡ 0
  Fits-cons p [] f d = refl
  Fits-cons p (x ∷ xs) f d = ground (arith, f, d)

  pub Fits-of_descents :
      (p : ℕ) (xs : List ℕ) → descents (p ∷ xs) ≡ 0 → Fits p xs × (descents xs ≡ 0)
  Fits-of_descents p [] d = (tt, refl)
  Fits-of_descents p (x ∷ xs) d = (ground (arith, d), ground (arith, d))

  -- The rest of the run that begins with `y`, and what follows it.
  abbrev pub take_run : ℕ → List ℕ → List ℕ
  take_run y [] = []
  take_run y (z ∷ zs) = if less z y then [] else z ∷ take_run z zs

  abbrev pub drop_run : ℕ → List ℕ → List ℕ
  drop_run y [] = []
  drop_run y (z ∷ zs) = if less z y then z ∷ zs else drop_run z zs

  pub take-drop : (y : ℕ) (ys : List ℕ) → take_run y ys ++ drop_run y ys ≡ ys
  take-drop y [] = refl
  take-drop y (z ∷ zs) = elim (Bool-cases (less z y)) [
    | inl e ↦ rw e refl
    | inr e ↦ rw e (ap (λ (l : List ℕ). z ∷ l) (take-drop z zs))
  ]

  pub descents-take_run : (y : ℕ) (ys : List ℕ) → descents_from y (take_run y ys) ≡ 0
  descents-take_run y [] = refl
  descents-take_run y (z ∷ zs) = ground (arith, descents-take_run z zs)

  abbrev pub runs : List ℕ → ℕ
  runs [] = 0
  runs (y ∷ ys) = 1 + descents_from y ys

  pub runs-drop_run : (y : ℕ) (ys : List ℕ) → runs (y ∷ ys) ≡ 1 + runs (drop_run y ys)
  runs-drop_run y [] = omega arith
  runs-drop_run y (z ∷ zs) = elim (Bool-cases (less z y)) [
    | inl e ↦ rw e (omega arith)
    | inr e ↦ rw e (omega (arith, runs-drop_run z zs))
  ]

  -- A run in front adds at most one to the number of runs.
  pub runs-append : (xs ys : List ℕ) → descents xs ≡ 0 → runs (xs ++ ys) ≤ 1 + runs ys
  runs-append [] ys d = omega arith
  runs-append (x ∷ []) [] d = omega arith
  runs-append (x ∷ []) (y ∷ ys) d = ground arith
  runs-append (x ∷ z ∷ xs) ys d =
      let (f, d') = Fits-of_descents x (z ∷ xs) d in ground (arith, f, runs-append (z ∷ xs) ys d')

  module _ (h : Elems) (list : LinkedList) where
    sorted_loop_lem :
        (n : ℕ) (xs ms zs : List ℕ) (y : ℕ)
        → IsList h list (xs ++ y ∷ (ms ++ zs))
        → length ms < n
        → sorted_loop less n y (first_of zs list.tail) h ≡ some (descents_from y ms == 0)
    unfolding sorted_loop
    sorted_loop_lem zero xs ms zs y l lt = absurd (omega arith)
    sorted_loop_lem (suc n) xs [] zs y l lt =
        let e : (first_of zs list.tail == first_of zs list.tail) ≡ true = ground arith in
        rw (next_at h list xs zs y l, e) refl
    sorted_loop_lem (suc n) xs (m ∷ ms) zs y l lt =
        let l' = moved_on h list xs (m ∷ (ms ++ zs)) y l in
        let e = ne_later h list (xs ++ y ∷ []) ms zs m l' in
        let rest = sorted_loop_lem n (xs ++ y ∷ []) ms zs m l' (omega arith) in
        rw (next_at h list xs (m ∷ (ms ++ zs)) y l, e, prev_at h list xs (m ∷ (ms ++ zs)) y l)
          (elim (Bool-cases (less m y)) [
            | inl c ↦ ground (arith, c)
            | inr c ↦ ground (arith, c, rest)
          ])

    -- `is_sorted` between two places of a list fails no assertion.
    pub is_sorted_lem :
        (n : ℕ) (xs ms zs : List ℕ)
        → IsList h list (xs ++ (ms ++ zs))
        → length ms ≤ n
        → is_sorted less n (first_of (ms ++ zs) list.tail) (first_of zs list.tail) h
          ≡ some (descents ms == 0)
    unfolding is_sorted
    is_sorted_lem n xs [] zs l lt =
        let e : (first_of zs list.tail == first_of zs list.tail) ≡ true = ground arith in rw e refl
    is_sorted_lem n xs (y ∷ ms) zs l lt =
        rw (ne_later h list xs ms zs y l) (sorted_loop_lem n xs ms zs y l (omega arith))

    run_loop_lem :
        (n : ℕ) (xs ys : List ℕ) (y : ℕ)
        → IsList h list (xs ++ y ∷ ys)
        → length ys < n
        → run_loop less n y list.tail h ≡ some (first_of (drop_run y ys) list.tail)
    unfolding run_loop
    run_loop_lem zero xs ys y l lt = absurd (omega arith)
    run_loop_lem (suc n) xs [] y l lt =
        let e : (list.tail == list.tail) ≡ true = ground arith in
        rw (next_at h list xs [] y l, e) refl
    run_loop_lem (suc n) xs (m ∷ ms) y l lt =
        let l' = moved_on h list xs (m ∷ ms) y l in
        let e : (m == list.tail) ≡ false = not_tail h list (xs ++ y ∷ []) ms m l' in
        let rest = run_loop_lem n (xs ++ y ∷ []) ms m l' (omega arith) in
        rw (next_at h list xs (m ∷ ms) y l, e, prev_at h list xs (m ∷ ms) y l)
          (elim (Bool-cases (less m y)) [ inl c ↦ rw c refl | inr c ↦ rw c rest ])

    -- `find_end_of_run` up to the end of a list fails no assertion and returns the end of the run.
    pub find_end_of_run_lem :
        (n : ℕ) (xs ys : List ℕ) (y : ℕ)
        → IsList h list (xs ++ y ∷ ys)
        → length ys < n
        → find_end_of_run less n y list.tail h ≡ some (first_of (drop_run y ys) list.tail)
    unfolding find_end_of_run
    find_end_of_run_lem n xs ys y l lt =
        let (a, b, c, y0) = neighbours h list xs (y ∷ ys) l in
        rw (y0, tail_not_null h list (xs ++ y ∷ ys) l, not_tail h list xs ys y l)
          (run_loop_lem n xs ys y l lt)
