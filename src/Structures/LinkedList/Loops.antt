-- ===== src/Structures/LinkedList/Loops.antt =====
-- pintos/lib/kernel/list.c: the loops along a list other than those of sorting. A loop takes fuel,
-- and `none` is a failed assertion or the end of the fuel.
use pintos_lab.Base.{
  ℕ, zero, suc, ◌+◌, Bool, not, Option, none, some, ◌==◌, if◌then◌else◌, assert, ◌>>=◌, ◌>>◌,
}
use pintos_lab.Structures.LinkedList.{
  Elems, LinkedList, list_begin, list_end, list_next, list_insert,
}

-- The loop of `list_size`.
unfoldable pub size_loop : ℕ → ℕ → ℕ → LinkedList → Elems → Option ℕ
size_loop zero e cnt list h = none
size_loop (suc n) e cnt list h =
    let rest = (do e' ← list_next e h; size_loop n e' (cnt + 1) list h) in
    if e == list_end list then some cnt else rest

unfoldable pub list_size : ℕ → LinkedList → Elems → Option ℕ
list_size n list h = size_loop n (list_begin list h) 0 list h

module _ (less : ℕ → ℕ → Bool) where
  -- The loop of `list_insert_ordered`: the element before which to insert.
  unfoldable pub place_loop : ℕ → ℕ → ℕ → LinkedList → Elems → Option ℕ
  place_loop zero e elem list h = none
  place_loop (suc n) e elem list h =
      let rest = (do e' ← list_next e h; place_loop n e' elem list h) in
      if e == list_end list then some e else (if less elem e then some e else rest)

  unfoldable pub list_insert_ordered : ℕ → LinkedList → ℕ → Elems → Option Elems
  list_insert_ordered n list elem h = do
    assert (not (elem == 0))
    e ← place_loop n (list_begin list h) elem list h
    list_insert e elem h

  unfoldable pub max_loop : ℕ → ℕ → ℕ → LinkedList → Elems → Option ℕ
  max_loop zero e max list h = none
  max_loop (suc n) e max list h =
      let rest = (do e' ← list_next e h; max_loop n e' (if less max e then e else max) list h) in
      if e == list_end list then some max else rest

  unfoldable pub list_max : ℕ → LinkedList → Elems → Option ℕ
  list_max n list h =
      if not (list_begin list h == list_end list)
      then (do e ← list_next (list_begin list h) h; max_loop n e (list_begin list h) list h)
      else some (list_begin list h)

  unfoldable pub min_loop : ℕ → ℕ → ℕ → LinkedList → Elems → Option ℕ
  min_loop zero e min list h = none
  min_loop (suc n) e min list h =
      let rest = (do e' ← list_next e h; min_loop n e' (if less e min then e else min) list h) in
      if e == list_end list then some min else rest

  unfoldable pub list_min : ℕ → LinkedList → Elems → Option ℕ
  list_min n list h =
      if not (list_begin list h == list_end list)
      then (do e ← list_next (list_begin list h) h; min_loop n e (list_begin list h) list h)
      else some (list_begin list h)
