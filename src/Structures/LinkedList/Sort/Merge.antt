-- ===== src/Structures/LinkedList/Sort/Merge.antt =====
-- `inplace_merge` merges two runs that stand one behind the other.
use mathlib.Core.List.{append_assoc, append-nil, Perm, perm_middle}
use mathlib.Core.List.Perm
use pintos_lab.Base.{
  ℕ, zero, suc, ◌+◌, ◌<◌, ◌≡◌, refl, sym, subst, Bool, true, false, ◌||◌, Option, some, List, [],
  ◌∷◌, ◌++◌, ◌==◌, arith, Bool-cases, inl, inr, length,
}
use pintos_lab.Structures.LinkedList.{Elems, LinkedList}
use pintos_lab.Structures.LinkedList.Holds.{IsList, first_of}
use pintos_lab.Structures.LinkedList.Walk.{neighbours, next_at, prev_at, ne_later, moved_on, shift}
use pintos_lab.Structures.LinkedList.Move.{move-IsList}
use pintos_lab.Structures.LinkedList.Sort.{merge_loop, inplace_merge}
use pintos_lab.Structures.LinkedList.Sort.Runs.{
  descents, Fits, Fits-cons, Fits-of_descents, is_sorted_lem,
}

module _ (less : ℕ → ℕ → Bool) (asym : (a b : ℕ) → less a b ≡ true → less b a ≡ false)
    (list : LinkedList) where
  -- The runs `as'` and `bs`, between `xs` and `ys`, have become one run.
  abbrev pub Merges : (xs as' bs ys : List ℕ) → Option Elems → Type 0
  Merges xs as' bs ys r =
      (h' : Elems) × (ms : List ℕ) × (r ≡ some h')
      × IsList h' list (xs ++ (ms ++ ys))
      × (descents less ms ≡ 0)
      × ((p : ℕ) → Fits less p as' → Fits less p bs → Fits less p ms)
      × Perm ms (as' ++ bs)

  merge_loop-Merges :
      (n : ℕ) (xs as' bs ys : List ℕ) (h : Elems)
      → IsList h list (xs ++ (as' ++ (bs ++ ys)))
      → length as' + length bs < n
      → descents less as' ≡ 0
      → descents less bs ≡ 0
      → Merges xs as' bs ys (
          merge_loop less n
            (first_of (as' ++ (bs ++ ys)) list.tail)
            (first_of (bs ++ ys) list.tail)
            (first_of ys list.tail)
            h)
  unfolding merge_loop
  merge_loop-Merges zero xs as' bs ys h l lt da db = absurd (omega arith)
  merge_loop-Merges (suc n) xs [] bs ys h l lt da db =
      let e : (first_of (bs ++ ys) list.tail == first_of (bs ++ ys) list.tail) ≡ true =
        ground arith in
      rw e (h, bs, refl, l, db, λ p f g. g, Perm.refl bs)
  merge_loop-Merges (suc n) xs (a ∷ as') [] ys h l lt da db =
      let e : (first_of ys list.tail == first_of ys list.tail) ≡ true = ground arith in
      let done : ((a == first_of ys list.tail) || (first_of ys list.tail == first_of ys list.tail))
          ≡ true =
        ground (arith, e) in
      rw done (
        h,
        a ∷ as',
        refl,
        l,
        da,
        λ p f g. f,
        subst (λ z. Perm (a ∷ as') z) (sym (append-nil (a ∷ as'))) (Perm.refl (a ∷ as')),
      )
  merge_loop-Merges (suc n) xs (a ∷ as') (b ∷ bs) ys h l lt da db =
      let ab : (a == b) ≡ false = ne_later h list xs as' (b ∷ (bs ++ ys)) a l in
      let l_b : IsList h list ((xs ++ a ∷ as') ++ b ∷ (bs ++ ys)) =
        subst (λ z. IsList h list z) (sym (append_assoc xs (a ∷ as') (b ∷ (bs ++ ys)))) l in
      let by : (b == first_of ys list.tail) ≡ false = ne_later h list (xs ++ a ∷ as') bs ys b l_b in
      let (fa, da') = Fits-of_descents less a as' da in
      let (fb, db') = Fits-of_descents less b bs db in
      elim (Bool-cases (less b a)) [
        | inr c ↦
            (let l' = moved_on h list xs (as' ++ (b ∷ bs ++ ys)) a l in
              let (h', ms, r, l'', d, fits, perm) =
                merge_loop-Merges n (xs ++ a ∷ []) as' (b ∷ bs) ys h l' (omega arith) da' db in
              rw (ab, by, c, next_at h list xs (as' ++ (b ∷ bs ++ ys)) a l)
                (
                  h',
                  a ∷ ms,
                  r,
                  subst (λ z. IsList h' list z) (sym (shift xs (ms ++ ys) a)) l'',
                  Fits-cons less a ms (fits a fa c) d,
                  λ p f g. f,
                  Perm.cons a perm,
                ))
        | inl c ↦
            (let (h1, s, l1) = move-IsList h list xs as' (bs ++ ys) a b l in
              let (h', ms, r, l'', d, fits, perm) =
                merge_loop-Merges n (xs ++ b ∷ []) (a ∷ as') bs ys h1 l1 (omega arith) da db' in
              rw
                (
                  ab,
                  by,
                  c,
                  next_at h list (xs ++ a ∷ as') (bs ++ ys) b l_b,
                  prev_at h list (xs ++ a ∷ as') (bs ++ ys) b l_b,
                  s,
                )
                (
                  h',
                  b ∷ ms,
                  r,
                  subst (λ z. IsList h' list z) (sym (shift xs (ms ++ ys) b)) l'',
                  Fits-cons less b ms (fits b (asym b a c) fb) d,
                  λ p f g. g,
                  Perm.trans (Perm.cons b perm) (Perm.symm (perm_middle (a ∷ as') bs)),
                ))
      ]

  -- `inplace_merge` of two runs, one behind the other, fails no assertion and leaves one run of
  -- their elements in their place.
  pub inplace_merge-Merges :
      (n : ℕ) (xs as' bs ys : List ℕ) (a b : ℕ) (h : Elems)
      → IsList h list (xs ++ (a ∷ as' ++ (b ∷ bs ++ ys)))
      → length (a ∷ as') + length (b ∷ bs) < n
      → descents less (a ∷ as') ≡ 0
      → descents less (b ∷ bs) ≡ 0
      → Merges xs (a ∷ as') (b ∷ bs) ys (inplace_merge less n a b (first_of ys list.tail) h)
  unfolding inplace_merge
  inplace_merge-Merges n xs as' bs ys a b h l lt da db =
      let l_b : IsList h list ((xs ++ a ∷ as') ++ b ∷ (bs ++ ys)) =
        subst (λ z. IsList h list z) (sym (append_assoc xs (a ∷ as') (b ∷ (bs ++ ys)))) l in
      let l_y : IsList h list ((xs ++ a ∷ as') ++ (b ∷ bs) ++ ys) =
        subst (λ z. IsList h list z) (sym (append_assoc (xs ++ a ∷ as') (b ∷ bs) ys)) l_b in
      let a0 = (neighbours h list xs (a ∷ as' ++ (b ∷ bs ++ ys)) l).3 in
      let b0 = (neighbours h list (xs ++ a ∷ as') (b ∷ bs ++ ys) l_b).3 in
      let y0 = (neighbours h list ((xs ++ a ∷ as') ++ b ∷ bs) ys l_y).3 in
      let s = is_sorted_lem less h list n xs (a ∷ as') (b ∷ bs ++ ys) l (omega arith) in
      let s' = is_sorted_lem less h list n (xs ++ a ∷ as') (b ∷ bs) ys l_b (omega arith) in
      rw (a0, b0, y0, s, da, s', db) (merge_loop-Merges n xs (a ∷ as') (b ∷ bs) ys h l lt da db)
