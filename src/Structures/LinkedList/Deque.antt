-- ===== src/Structures/LinkedList/Deque.antt =====
-- The pushes and pops of list.c implement a sequence with two ends.
use mathlib.Core.List.{append-nil}
use pintos_lab.Base.{
  ℕ, ◌≡◌, refl, sym, ap, ◌∙◌, subst, true, false, Option, none, some, List, [], ◌∷◌, ◌++◌, ◌==◌,
  arith, ◌>>=◌, Option-cases, inl, inr,
}
use pintos_lab.Structures.LinkedList.{
  Elems, LinkedList, list_init, set_prev, set_next, list_push_front, list_push_back, list_pop_front,
  list_pop_back, list_front, list_back, list_empty,
}
use pintos_lab.Structures.LinkedList.Linked.{has}
use pintos_lab.Structures.LinkedList.Holds.{
  IsList, ring, first_of, last_of, insert-IsList, remove-IsList, init_of, last-view,
}
use pintos_lab.Structures.LinkedList.Walk.{neighbours, not_tail, last-append}

pub data Op : Type 0 where
  push_front push_back : ℕ → Op
  pop_front pop_back look_front look_back : Op

-- The operations of the source; a push returns nothing.
unfoldable pub run : Op → LinkedList → Elems → Option (Option ℕ × Elems)
run (push_front e) list h = do h' ← list_push_front list e h; some (none, h')
run (push_back e) list h = do h' ← list_push_back list e h; some (none, h')
run pop_front list h = do (e, h') ← list_pop_front list h; some (some e, h')
run pop_back list h = do (e, h') ← list_pop_back list h; some (some e, h')
run look_front list h = do e ← list_front list h; some (some e, h)
run look_back list h = do e ← list_back list h; some (some e, h)

-- What they do to the sequence of elements: a pop or a look at an end of an empty one panics.
abbrev pub spec : Op → List ℕ → Option (Option ℕ × List ℕ)
spec (push_front e) xs = some (none, e ∷ xs)
spec (push_back e) xs = some (none, xs ++ e ∷ [])
spec pop_front [] = none
spec pop_front (x ∷ xs) = some (some x, xs)
spec pop_back [] = none
spec pop_back (x ∷ xs) = some (some (last_of x xs), init_of x xs)
spec look_front [] = none
spec look_front (x ∷ xs) = some (some x, x ∷ xs)
spec look_back [] = none
spec look_back (x ∷ xs) = some (some (last_of x xs), x ∷ xs)

-- An element that is pushed is a new one.
abbrev pub IsFresh : Op → LinkedList → List ℕ → Type 0
IsFresh (push_front e) list xs = (has e (ring list xs) ≡ false) × ((e == 0) ≡ false)
IsFresh (push_back e) list xs = (has e (ring list xs) ≡ false) × ((e == 0) ≡ false)
IsFresh pop_front list xs = Unit
IsFresh pop_back list xs = Unit
IsFresh look_front list xs = Unit
IsFresh look_back list xs = Unit

-- The memory follows the sequence, and panics where the specification does.
abbrev pub Follows : LinkedList → Option (Option ℕ × List ℕ) → Option (Option ℕ × Elems) → Type 0
Follows list none r = r ≡ none
Follows list (some (v, ys)) r = (h' : Elems) × (r ≡ some (v, h')) × IsList h' list ys

module _ (h : Elems) (list : LinkedList) where
  empty_lem :
      (xs : List ℕ) → IsList h list xs → list_empty list h ≡ (first_of xs list.tail == list.tail)
  empty_lem xs l = rw (neighbours h list [] xs l).0 refl

  -- The pointer back from the tail of a list that is not empty.
  last_back : (x : ℕ) (xs : List ℕ) → IsList h list (x ∷ xs) → h.prev list.tail ≡ last_of x xs
  last_back x xs l =
      let us = init_of x xs in
      let e = last_of x xs in
      let view : x ∷ xs ≡ us ++ e ∷ [] =
        ap (λ (l : List ℕ). x ∷ l) (sym (append-nil xs)) ∙ last-view x xs [] in
      let l0 : IsList h list (us ++ e ∷ []) = subst (λ z. IsList h list z) view l in
      let end = subst (λ z. IsList h list z) (sym (append-nil (us ++ e ∷ []))) l0 in
      (neighbours h list (us ++ e ∷ []) [] end).1 ∙ last-append list.head e us

  -- Each operation follows the specification.
  pub run-Follows :
      (op : Op) (xs : List ℕ)
      → IsList h list xs
      → IsFresh op list xs
      → Follows list (spec op xs) (run op list h)
  unfolding run list_push_front list_push_back list_pop_front list_pop_back list_front list_back
  run-Follows (push_front e) xs l (o, e0) =
      let (h', r, l', same) = insert-IsList h list [] xs e l o e0 in
      (h', rw ((neighbours h list [] xs l).0, r) refl, l')
  run-Follows (push_back e) xs l (o, e0) =
      let l0 = subst (λ z. IsList h list z) (sym (append-nil xs)) l in
      let o0 = subst (λ z. has e (ring list z) ≡ false) (sym (append-nil xs)) o in
      let (h', r, l', same) = insert-IsList h list xs [] e l0 o0 e0 in (h', rw r refl, l')
  run-Follows pop_front [] l f =
      let e : (list.tail == list.tail) ≡ true = ground arith in rw (empty_lem [] l, e) refl
  run-Follows pop_front (x ∷ xs) l f =
      let (h', r, l', same) = remove-IsList h list [] xs x l in
      (
        h',
        rw (empty_lem (x ∷ xs) l, not_tail h list [] xs x l, (neighbours h list [] (x ∷ xs) l).0, r)
            refl,
        l',
      )
  run-Follows pop_back [] l f =
      let e : (list.tail == list.tail) ≡ true = ground arith in rw (empty_lem [] l, e) refl
  run-Follows pop_back (x ∷ xs) l f =
      let us = init_of x xs in
      let e = last_of x xs in
      let view : x ∷ xs ≡ us ++ e ∷ [] =
        ap (λ (l : List ℕ). x ∷ l) (sym (append-nil xs)) ∙ last-view x xs [] in
      let l0 : IsList h list (us ++ e ∷ []) = subst (λ z. IsList h list z) view l in
      let (h', r, l', same) = remove-IsList h list us [] e l0 in
      let back : h.prev list.tail ≡ e = last_back x xs l in
      (
        h',
        rw (empty_lem (x ∷ xs) l, not_tail h list [] xs x l, back, r) refl,
        subst (λ z. IsList h' list z) (append-nil us) l',
      )
  run-Follows look_front [] l f =
      let e : (list.tail == list.tail) ≡ true = ground arith in rw (empty_lem [] l, e) refl
  run-Follows look_front (x ∷ xs) l f = (
    h,
    rw (empty_lem (x ∷ xs) l, not_tail h list [] xs x l, (neighbours h list [] (x ∷ xs) l).0) refl,
    l,
  )
  run-Follows look_back [] l f =
      let e : (list.tail == list.tail) ≡ true = ground arith in rw (empty_lem [] l, e) refl
  run-Follows look_back (x ∷ xs) l f =
      (h, rw (empty_lem (x ∷ xs) l, not_tail h list [] xs x l, last_back x xs l) refl, l)

-- `list_init` makes an empty list of two different sentinels.
pub list_init-IsList :
    (h : Elems) (list : LinkedList)
    → (list.head == list.tail) ≡ false
    → (list.head == 0) ≡ false
    → (list.tail == 0) ≡ false
    → IsList (list_init list h) list []
unfolding list_init set_prev set_next
list_init-IsList h list d a b = record {
  linked = ground (arith, d);
  distinct = ground (arith, d);
  non_null = ground (arith, a, b);
  first = ground (arith, d);
  last = ground (arith, d);
}

-- The operations one after another.
unfoldable pub run_all : List Op → LinkedList → Elems → Option (List (Option ℕ) × Elems)
run_all [] list h = some ([], h)
run_all (op ∷ ops) list h = do
  (v, h') ← run op list h
  (vs, h'') ← run_all ops list h'
  some (v ∷ vs, h'')

unfoldable pub spec_all : List Op → List ℕ → Option (List (Option ℕ) × List ℕ)
spec_all [] xs = some ([], xs)
spec_all (op ∷ ops) xs = do (v, ys) ← spec op xs; (vs, zs) ← spec_all ops ys; some (v ∷ vs, zs)

abbrev pub AreFresh : List Op → LinkedList → List ℕ → Type 0
AreFresh [] list xs = Unit
AreFresh (op ∷ ops) list xs =
    IsFresh op list xs
    × ((v : Option ℕ) (ys : List ℕ) → spec op xs ≡ some (v, ys) → AreFresh ops list ys)

abbrev pub FollowsAll :
    LinkedList → Option (List (Option ℕ) × List ℕ) → Option (List (Option ℕ) × Elems) → Type 0
FollowsAll list none r = r ≡ none
FollowsAll list (some (vs, ys)) r = (h' : Elems) × (r ≡ some (vs, h')) × IsList h' list ys

-- Any sequence of pushes of new elements, pops and looks at the ends, on a list in memory, returns
-- what it returns on the sequence of the elements, leaves the list of the elements left, and
-- panics exactly where a pop meets an empty sequence.
pub run_all-FollowsAll :
    (ops : List Op) (list : LinkedList) (xs : List ℕ) (h : Elems)
    → IsList h list xs
    → AreFresh ops list xs
    → FollowsAll list (spec_all ops xs) (run_all ops list h)
unfolding run_all spec_all
run_all-FollowsAll [] list xs h l f = (h, refl, l)
run_all-FollowsAll (op ∷ ops) list xs h l (f, fs) = elim (Option-cases (spec op xs)) [
  | inl e ↦
      (let r : run op list h ≡ none =
          subst (λ z. Follows list z (run op list h)) e (run-Follows h list op xs l f) in
        rw (e, r) refl)
  | inr ((v, ys), e) ↦
      (let (h', r, l') =
          subst (λ z. Follows list z (run op list h)) e (run-Follows h list op xs l f) in
        let rest = run_all-FollowsAll ops list ys h' l' (fs v ys e) in
        elim (Option-cases (spec_all ops ys)) [
          | inl e' ↦
              (let r' : run_all ops list h' ≡ none =
                  subst (λ z. FollowsAll list z (run_all ops list h')) e' rest in
                rw (e, r, e', r') refl)
          | inr ((vs, zs), e') ↦
              (let (h'', r', l'') = subst (λ z. FollowsAll list z (run_all ops list h')) e' rest in
                rw (e, r, e', r') (h'', refl, l''))
        ])
]
