-- ===== src/Structures/LinkedList/Sort.antt =====
-- pintos/lib/kernel/list.c: `list_sort` and its helpers. `less` compares two elements; what it
-- reads of them does not change meanwhile. A loop takes fuel, and `none` is a failed assertion or
-- the end of the fuel.
pub mod Runs
pub mod Merge
pub mod Sorts
use pintos_lab.Base.{
  ℕ, zero, suc, ◌+◌, Bool, true, false, not, ◌&&◌, ◌||◌, Option, none, some, ◌==◌, ltb,
  if◌then◌else◌, assert, ◌>>=◌, ◌>>◌,
}
use pintos_lab.Structures.LinkedList.{
  Elems, LinkedList, list_begin, list_end, list_next, list_prev, list_splice,
}

module _ (less : ℕ → ℕ → Bool) where
  -- The loop of `is_sorted`, from `a` up to `b`.
  unfoldable pub sorted_loop : ℕ → ℕ → ℕ → Elems → Option Bool
  sorted_loop zero a b h = none
  sorted_loop (suc n) a b h = do
    a' ← list_next a h
    let rest = sorted_loop n a' b h
    if a' == b then some true else (do p ← list_prev a' h; if less a' p then some false else rest)

  unfoldable pub is_sorted : ℕ → ℕ → ℕ → Elems → Option Bool
  is_sorted n a b h = if a == b then some true else sorted_loop n a b h

  unfoldable pub run_loop : ℕ → ℕ → ℕ → Elems → Option ℕ
  run_loop zero a b h = none
  run_loop (suc n) a b h = do
    a' ← list_next a h
    let rest = run_loop n a' b h
    if a' == b then some a' else (do p ← list_prev a' h; if less a' p then some a' else rest)

  unfoldable pub find_end_of_run : ℕ → ℕ → ℕ → Elems → Option ℕ
  find_end_of_run n a b h = do
    assert (not (a == 0))
    assert (not (b == 0))
    assert (not (a == b))
    run_loop n a b h

  unfoldable pub merge_loop : ℕ → ℕ → ℕ → ℕ → Elems → Option Elems
  merge_loop zero a0 a1b0 b1 h = none
  merge_loop (suc n) a0 a1b0 b1 h =
      let keep = (do a0' ← list_next a0 h; merge_loop n a0' a1b0 b1 h) in
      let move = (do
        a1b0' ← list_next a1b0 h
        e ← list_prev a1b0' h
        h' ← list_splice a0 e a1b0' h
        merge_loop n a0 a1b0' b1 h') in
      if (a0 == a1b0) || (a1b0 == b1) then some h else (if not (less a1b0 a0) then keep else move)

  unfoldable pub inplace_merge : ℕ → ℕ → ℕ → ℕ → Elems → Option Elems
  inplace_merge n a0 a1b0 b1 h = do
    assert (not (a0 == 0))
    assert (not (a1b0 == 0))
    assert (not (b1 == 0))
    first_sorted ← is_sorted n a0 a1b0 h
    assert first_sorted
    second_sorted ← is_sorted n a1b0 b1 h
    assert second_sorted
    merge_loop n a0 a1b0 b1 h

  -- The `for` loop of `list_sort`: the number of runs put out, and the memory after. `m` is the
  -- fuel of each inner loop.
  unfoldable pub pass_loop : ℕ → ℕ → ℕ → LinkedList → ℕ → Elems → Option (ℕ × Elems)
  pass_loop zero m a0 list output_run_cnt h = none
  pass_loop (suc n) m a0 list output_run_cnt h =
      let round = (do
        a1b0 ← find_end_of_run m a0 (list_end list) h
        let rest = (do
          b1 ← find_end_of_run m a1b0 (list_end list) h
          h' ← inplace_merge m a0 a1b0 b1 h
          pass_loop n m b1 list (output_run_cnt + 1) h')
        if a1b0 == list_end list then some (output_run_cnt + 1, h) else rest) in
      if a0 == list_end list then some (output_run_cnt, h) else round

  unfoldable pub sort_loop : ℕ → ℕ → LinkedList → Elems → Option Elems
  sort_loop zero m list h = none
  sort_loop (suc n) m list h = do
    (output_run_cnt, h') ← pass_loop m m (list_begin list h) list 0 h
    let again = sort_loop n m list h'
    if ltb 1 output_run_cnt then again else some h'

  unfoldable pub list_sort : ℕ → LinkedList → Elems → Option Elems
  list_sort m list h = do
    h' ← sort_loop m m list h
    sorted ← is_sorted m (list_begin list h') (list_end list) h'
    assert sorted
    some h'
