-- ===== src/Structures/LinkedList.antt =====
-- pintos/lib/kernel/list.c: doubly linked lists with two sentinels, in a memory of elements.
pub mod Linked
pub mod Edit
pub mod Holds
pub mod Walk
pub mod Move
pub mod Sort
pub mod Loops
pub mod Deque
pub mod Ordered
pub mod Examples
use pintos_lab.Base.{
  ℕ, zero, suc, ◌+◌, Bool, true, false, not, ◌&&◌, ◌||◌, Option, none, some, ◌==◌, if◌then◌else◌,
  assert, ◌>>=◌, ◌>>◌,
}

-- The `prev` and `next` of the `struct list_elem` at each address; NULL is 0.
pub record Elems : Type 0 where
  pub prev : ℕ → ℕ
  pub next : ℕ → ℕ

-- `struct list`: the addresses of its two sentinels
pub record LinkedList : Type 0 where
  pub head : ℕ
  pub tail : ℕ

-- `elem->prev = v` and `elem->next = v`
unfoldable pub set_prev : ℕ → ℕ → Elems → Elems
set_prev elem v h = record h { prev = λ a. if elem == a then v else h.prev a }

unfoldable pub set_next : ℕ → ℕ → Elems → Elems
set_next elem v h = record h { next = λ a. if elem == a then v else h.next a }

abbrev pub is_head : ℕ → Elems → Bool
is_head elem h = not (elem == 0) && (h.prev elem == 0) && not (h.next elem == 0)

abbrev pub is_interior : ℕ → Elems → Bool
is_interior elem h = not (elem == 0) && not (h.prev elem == 0) && not (h.next elem == 0)

abbrev pub is_tail : ℕ → Elems → Bool
is_tail elem h = not (elem == 0) && not (h.prev elem == 0) && (h.next elem == 0)

unfoldable pub list_init : LinkedList → Elems → Elems
list_init list h =
    set_next list.tail 0
      (set_prev list.tail list.head (set_next list.head list.tail (set_prev list.head 0 h)))

abbrev pub list_begin : LinkedList → Elems → ℕ
list_begin list h = h.next list.head

abbrev pub list_end : LinkedList → ℕ
list_end list = list.tail

unfoldable pub list_next : ℕ → Elems → Option ℕ
list_next elem h = do assert (is_head elem h || is_interior elem h); some (h.next elem)

unfoldable pub list_prev : ℕ → Elems → Option ℕ
list_prev elem h = do assert (is_interior elem h || is_tail elem h); some (h.prev elem)

unfoldable pub list_insert : ℕ → ℕ → Elems → Option Elems
list_insert before elem h = do
  assert (is_interior before h || is_tail before h)
  assert (not (elem == 0))
  let h1 = set_next elem before (set_prev elem (h.prev before) h)
  let h2 = set_next (h1.prev before) elem h1
  some (set_prev before elem h2)

unfoldable pub list_remove : ℕ → Elems → Option (ℕ × Elems)
list_remove elem h = do
  assert (is_interior elem h)
  let h1 = set_next (h.prev elem) (h.next elem) h
  let h2 = set_prev (h1.next elem) (h1.prev elem) h1
  some (h2.next elem, h2)

unfoldable pub list_splice : ℕ → ℕ → ℕ → Elems → Option Elems
list_splice before first end h = do
  assert (is_interior before h || is_tail before h)
  if first == end then some h else (do
    last ← list_prev end h
    assert (is_interior first h)
    assert (is_interior last h)
    let h1 = set_next (h.prev first) (h.next last) h
    let h2 = set_prev (h1.next last) (h1.prev first) h1
    let h3 = set_prev first (h2.prev before) h2
    let h4 = set_next last before h3
    let h5 = set_next (h4.prev before) first h4
    some (set_prev before last h5))

abbrev pub list_empty : LinkedList → Elems → Bool
list_empty list h = list_begin list h == list_end list

unfoldable pub list_push_front : LinkedList → ℕ → Elems → Option Elems
list_push_front list elem h = list_insert (list_begin list h) elem h

unfoldable pub list_push_back : LinkedList → ℕ → Elems → Option Elems
list_push_back list elem h = list_insert (list_end list) elem h

unfoldable pub list_front : LinkedList → Elems → Option ℕ
list_front list h = do assert (not (list_empty list h)); some (h.next list.head)

unfoldable pub list_back : LinkedList → Elems → Option ℕ
list_back list h = do assert (not (list_empty list h)); some (h.prev list.tail)

unfoldable pub list_pop_front : LinkedList → Elems → Option (ℕ × Elems)
list_pop_front list h = do
  front ← list_front list h
  (after, h') ← list_remove front h
  some (front, h')

unfoldable pub list_pop_back : LinkedList → Elems → Option (ℕ × Elems)
list_pop_back list h = do back ← list_back list h; (after, h') ← list_remove back h; some (back, h')
