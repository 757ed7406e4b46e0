-- ===== src/Structures/LinkedList/Examples.antt =====
-- A list of three elements, compared by their addresses.
use pintos_lab.Base.{
  ℕ, ◌≡◌, refl, true, false, Option, none, some, List, [], ◌∷◌, ◌==◌, ltb, if◌then◌else◌, arith,
}
use pintos_lab.Structures.LinkedList.{
  Elems, LinkedList, set_prev, set_next, list_remove, list_next, list_prev, list_splice,
}
use pintos_lab.Structures.LinkedList.Holds.{IsList, ring, SameOutside, remove-IsList}
use pintos_lab.Structures.LinkedList.Sort.{
  sorted_loop, is_sorted, run_loop, find_end_of_run, merge_loop, inplace_merge, pass_loop,
  sort_loop, list_sort,
}
use pintos_lab.Structures.LinkedList.Sort.Sorts.{Sorts, list_sort-Sorts}
use pintos_lab.Structures.LinkedList.Deque.{
  push_back, pop_front, run_all, spec_all, FollowsAll, run_all-FollowsAll,
}

abbrev list : LinkedList
list = record { head = 100; tail = 108 }

-- 30, 20 and 40, in this order
abbrev memory : Elems
memory = record {
  prev = λ a.
      if a == 30
      then 100
      else if a == 20
      then 30
      else if a == 40
      then 20
      else if a == 108
      then 40
      else 0;
  next = λ a.
      if a == 100
      then 30
      else if a == 30
      then 20
      else if a == 20
      then 40
      else if a == 40
      then 108
      else 0;
}

abbrev elements : List ℕ
elements = 30 ∷ 20 ∷ 40 ∷ []

memory-IsList : IsList memory list elements
memory-IsList = record {
  linked = ground arith;
  distinct = ground arith;
  non_null = refl;
  first = refl;
  last = refl;
}

ltb_asym : (a b : ℕ) → ltb a b ≡ true → ltb b a ≡ false
ltb_asym a b h = ground arith

-- The first two elements of the list after it was sorted.
sorted_front : Option Elems → ℕ × ℕ
sorted_front none = (0, 0)
sorted_front (some h) = (h.next 100, h.next (h.next 100))

sort_runs : sorted_front (list_sort ltb 4 list memory) ≡ (20, 30)
unfolding sorted_front list_sort sort_loop pass_loop inplace_merge merge_loop find_end_of_run
    run_loop is_sorted sorted_loop list_next list_prev list_splice set_prev set_next
sort_runs = refl

list_sort-Sorts_example : Sorts ltb ltb_asym list elements (list_sort ltb 4 list memory)
list_sort-Sorts_example =
    list_sort-Sorts ltb ltb_asym list 4 elements memory memory-IsList (omega arith)

remove-IsList_example :
    (h' : Elems) × (list_remove 20 memory ≡ some (40, h'))
    × IsList h' list (30 ∷ 40 ∷ [])
    × SameOutside (ring list elements) memory h'
remove-IsList_example = remove-IsList memory list (30 ∷ []) (40 ∷ []) 20 memory-IsList

run_all-FollowsAll_example :
    FollowsAll list
      (spec_all (push_back 7 ∷ pop_front ∷ []) elements)
      (run_all (push_back 7 ∷ pop_front ∷ []) list memory)
run_all-FollowsAll_example =
    run_all-FollowsAll (push_back 7 ∷ pop_front ∷ []) list elements memory memory-IsList
      ((refl, refl), λ v ys e. (tt, λ v' ys' e'. tt))
