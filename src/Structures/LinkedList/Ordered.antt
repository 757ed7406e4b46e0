-- ===== src/Structures/LinkedList/Ordered.antt =====
-- Size, insertion in order, and the largest element.
use pintos_lab.Base.{
  ℕ, zero, suc, ◌+◌, ◌<◌, ◌≡◌, refl, sym, ap, subst, Bool, true, false, some, List, [], ◌∷◌, ◌++◌,
  ◌==◌, if◌then◌else◌, arith, Bool-cases, inl, inr, length,
}
use pintos_lab.Structures.LinkedList.{Elems, LinkedList, list_begin}
use pintos_lab.Structures.LinkedList.Linked.{has}
use pintos_lab.Structures.LinkedList.Holds.{IsList, ring, first_of, insert-IsList}
use pintos_lab.Structures.LinkedList.Walk.{neighbours, next_at, not_tail, moved_on}
use pintos_lab.Structures.LinkedList.Loops.{size_loop, list_size, place_loop, list_insert_ordered}
use pintos_lab.Structures.LinkedList.Sort.Runs.{descents, Fits, Fits-cons, Fits-of_descents}

begin_lem :
    (h : Elems) (list : LinkedList) (ys : List ℕ)
    → IsList h list ys
    → list_begin list h ≡ first_of ys list.tail
begin_lem h list ys l = (neighbours h list [] ys l).0

module _ (h : Elems) (list : LinkedList) where
  size_loop_lem :
      (n : ℕ) (xs ys : List ℕ) (cnt : ℕ)
      → IsList h list (xs ++ ys)
      → length ys < n
      → size_loop n (first_of ys list.tail) cnt list h ≡ some (cnt + length ys)
  unfolding size_loop
  size_loop_lem zero xs ys cnt l lt = absurd (omega arith)
  size_loop_lem (suc n) xs [] cnt l lt =
      let e : (list.tail == list.tail) ≡ true = ground arith in rw e (ground arith)
  size_loop_lem (suc n) xs (y ∷ ys) cnt l lt =
      let rest =
        size_loop_lem n (xs ++ y ∷ []) ys (cnt + 1) (moved_on h list xs ys y l) (omega arith) in
      rw (not_tail h list xs ys y l, next_at h list xs ys y l) (ground (arith, rest))

  -- `list_size` counts the elements of a list.
  pub list_size_lem :
      (n : ℕ) (ys : List ℕ)
      → IsList h list ys
      → length ys < n
      → list_size n list h ≡ some (length ys)
  unfolding list_size
  list_size_lem n ys l lt =
      rw (begin_lem h list ys l) (ground (arith, size_loop_lem n [] ys 0 l lt))

  module _ (less : ℕ → ℕ → Bool) where
    -- The elements before the place of `e`, and those behind it.
    abbrev pub lower : ℕ → List ℕ → List ℕ
    lower e [] = []
    lower e (y ∷ ys) = if less e y then [] else y ∷ lower e ys

    abbrev pub upper : ℕ → List ℕ → List ℕ
    upper e [] = []
    upper e (y ∷ ys) = if less e y then y ∷ ys else upper e ys

    lower-upper : (e : ℕ) (ys : List ℕ) → lower e ys ++ upper e ys ≡ ys
    lower-upper e [] = refl
    lower-upper e (y ∷ ys) = elim (Bool-cases (less e y)) [
      | inl c ↦ rw c refl
      | inr c ↦ rw c (ap (λ (l : List ℕ). y ∷ l) (lower-upper e ys))
    ]

    place_loop_lem :
        (n : ℕ) (xs ys : List ℕ) (e : ℕ)
        → IsList h list (xs ++ ys)
        → length ys < n
        → place_loop less n (first_of ys list.tail) e list h
          ≡ some (first_of (upper e ys) list.tail)
    unfolding place_loop
    place_loop_lem zero xs ys e l lt = absurd (omega arith)
    place_loop_lem (suc n) xs [] e l lt =
        let t : (list.tail == list.tail) ≡ true = ground arith in rw t refl
    place_loop_lem (suc n) xs (y ∷ ys) e l lt =
        let rest = place_loop_lem n (xs ++ y ∷ []) ys e (moved_on h list xs ys y l) (omega arith) in
        rw (not_tail h list xs ys y l, next_at h list xs ys y l)
          (elim (Bool-cases (less e y)) [ inl c ↦ rw c refl | inr c ↦ rw c rest ])

    module _ (asym : (a b : ℕ) → less a b ≡ true → less b a ≡ false) where
      insert_sorted :
          (e : ℕ) (ys : List ℕ)
          → descents less ys ≡ 0
          → (descents less (lower e ys ++ e ∷ upper e ys) ≡ 0)
            × ((p : ℕ)
                → Fits less p ys
                → less e p ≡ false
                → Fits less p (lower e ys ++ e ∷ upper e ys))
      insert_sorted e [] d = (refl, λ p f g. g)
      insert_sorted e (y ∷ ys) d = elim (Bool-cases (less e y)) [
        | inl c ↦ rw c (ground (arith, asym e y c, d), λ p f g. g)
        | inr c ↦
            (let (f, d') = Fits-of_descents less y ys d in
              let (rest, fits) = insert_sorted e ys d' in
              rw c
                (Fits-cons less y (lower e ys ++ e ∷ upper e ys) (fits y f c) rest, λ p f' g. f'))
      ]

      -- `list_insert_ordered` of a new element into a list in which no element is less than the one
      -- before it, given more fuel than the list has elements, fails no assertion and keeps it so.
      pub insert_ordered-descents :
          (n e : ℕ) (ys : List ℕ)
          → IsList h list ys
          → length ys < n
          → has e (ring list ys) ≡ false
          → (e == 0) ≡ false
          → descents less ys ≡ 0
          → (h' : Elems) × (us : List ℕ) × (vs : List ℕ) × (list_insert_ordered less n list e h
              ≡ some h')
            × (us ++ vs ≡ ys)
            × IsList h' list (us ++ e ∷ vs)
            × (descents less (us ++ e ∷ vs) ≡ 0)
      unfolding list_insert_ordered
      insert_ordered-descents n e ys l lt o e0 d =
          let us = lower e ys in
          let vs = upper e ys in
          let same = lower-upper e ys in
          let l' : IsList h list (us ++ vs) = subst (λ z. IsList h list z) (sym same) l in
          let o' : has e (ring list (us ++ vs)) ≡ false =
            subst (λ z. has e (ring list z) ≡ false) (sym same) o in
          let (h', run, l'', others) = insert-IsList h list us vs e l' o' e0 in
          (
            h',
            us,
            vs,
            rw (e0, begin_lem h list ys l, place_loop_lem n [] ys e l lt) run,
            same,
            l'',
            (insert_sorted e ys d).0,
          )
