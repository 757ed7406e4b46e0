-- ===== src/Structures/LinkedList/Sort/Sorts.antt =====
-- `list_sort` ends and sorts: each pass halves the number of runs.
use mathlib.Core.List.{append_assoc, append-nil, Perm, perm_middle}
use mathlib.Core.List.Perm
use mathlib.Core.List as CoreList
use mathlib.Core.Nat as Unary
use pintos_lab.Base.{
  ℕ, zero, suc, ◌+◌, ◌*◌, ◌≤◌, ◌<◌, ◌≡◌, refl, sym, ap, ◌∙◌, subst, ◌⊎◌, Bool, true, false, Option,
  some, List, [], ◌∷◌, ◌++◌, ◌==◌, ltb, arith, Bool-cases, inl, inr, length, length-append,
}
use pintos_lab.Structures.LinkedList.{Elems, LinkedList, list_begin}
use pintos_lab.Structures.LinkedList.Holds.{IsList, first_of}
use pintos_lab.Structures.LinkedList.Walk.{neighbours, not_tail}
use pintos_lab.Structures.LinkedList.Sort.{
  find_end_of_run, inplace_merge, pass_loop, sort_loop, list_sort,
}
use pintos_lab.Structures.LinkedList.Sort.Runs.{
  descents, take_run, drop_run, take-drop, descents-take_run, runs, runs-drop_run, runs-append,
  find_end_of_run_lem, is_sorted_lem,
}
use pintos_lab.Structures.LinkedList.Sort.Merge.{inplace_merge-Merges}

List-cases : (l : List ℕ) → (l ≡ []) ⊎ ((x : ℕ) × (xs : List ℕ) × (l ≡ x ∷ xs))
List-cases [] = inl refl
List-cases (x ∷ xs) = inr (x, xs, refl)

native : Unary.ℕ → ℕ
native Unary.zero = 0
native (Unary.suc n) = suc (native n)

length-native : (xs : List ℕ) → length xs ≡ native (CoreList.length xs)
unfolding native
length-native [] = refl
length-native (x ∷ xs) = ap suc (length-native xs)

length-perm : {xs ys : List ℕ} → Perm xs ys → length xs ≡ length ys
length-perm {xs} {ys} p = length-native xs ∙ ap native (Perm.length-eq p) ∙ sym (length-native ys)

module _ (less : ℕ → ℕ → Bool) (asym : (a b : ℕ) → less a b ≡ true → less b a ≡ false)
    (list : LinkedList) where
  -- A pass over `ys`, with `cnt` runs put out before: at least as many runs are counted as there
  -- are after it, and at most half as many as before, rounded up.
  abbrev Passes : (xs ys : List ℕ) → ℕ → Option (ℕ × Elems) → Type 0
  Passes xs ys cnt r =
      (cnt' : ℕ) × (h' : Elems) × (zs : List ℕ) × (r ≡ some (cnt', h'))
      × IsList h' list (xs ++ zs)
      × Perm zs ys
      × (cnt + runs less zs ≤ cnt')
      × (2 * cnt' ≤ 2 * cnt + runs less ys + 1)

  length-run :
      (z : ℕ) (d : List ℕ) → length (take_run less z d) + length (drop_run less z d) ≡ length d
  length-run z d =
      sym (length-append (take_run less z d) (drop_run less z d))
      ∙ ap (λ (l : List ℕ). length l) (take-drop less z d)

  -- The run `y ∷ r` and the run that starts at `z` behind it are merged to `ms`.
  abbrev TwoMerged : (m : ℕ) (xs r d : List ℕ) (y z : ℕ) → Elems → Type 0
  TwoMerged m xs r d y z h =
      let end = first_of (drop_run less z d) list.tail in
      (h1 : Elems) × (ms : List ℕ) × ((z == list.tail) ≡ false)
      × (find_end_of_run less m z list.tail h ≡ some end)
      × (inplace_merge less m y z end h ≡ some h1)
      × IsList h1 list ((xs ++ ms) ++ drop_run less z d)
      × (descents less ms ≡ 0)
      × Perm ms (y ∷ r ++ z ∷ take_run less z d)

  two_runs :
      (m : ℕ) (xs r d : List ℕ) (y z : ℕ) (h : Elems)
      → IsList h list (xs ++ (y ∷ r ++ z ∷ d))
      → length r + length d + 2 < m
      → descents less (y ∷ r) ≡ 0
      → TwoMerged m xs r d y z h
  two_runs m xs r d y z h l lt dr =
      let l_z : IsList h list ((xs ++ y ∷ r) ++ z ∷ d) =
        subst (λ q. IsList h list q) (sym (append_assoc xs (y ∷ r) (z ∷ d))) l in
      let r2 = take_run less z d in
      let d2 = drop_run less z d in
      let lengths = length-run z d in
      let l_m : IsList h list (xs ++ (y ∷ r ++ (z ∷ r2 ++ d2))) =
        subst (λ q. IsList h list (xs ++ (y ∷ r ++ z ∷ q))) (sym (take-drop less z d)) l in
      let (h1, ms, merged, l1, dm, fits, perm) =
        inplace_merge-Merges less asym list m xs r r2 d2 y z h l_m (omega (arith, lt, lengths)) dr
          (descents-take_run less z d) in
      (
        h1,
        ms,
        not_tail h list (xs ++ y ∷ r) d z l_z,
        find_end_of_run_lem less h list m (xs ++ y ∷ r) d z l_z (omega (arith, lt)),
        merged,
        subst (λ q. IsList h1 list q) (sym (append_assoc xs ms d2)) l1,
        dm,
        perm,
      )

  pass_loop-Passes :
      (n m : ℕ) (xs ys : List ℕ) (cnt : ℕ) (h : Elems)
      → IsList h list (xs ++ ys)
      → length ys < n
      → length ys < m
      → Passes xs ys cnt (pass_loop less n m (first_of ys list.tail) list cnt h)
  unfolding pass_loop
  pass_loop-Passes zero m xs ys cnt h l lt lm = absurd (omega arith)
  pass_loop-Passes (suc n) m xs [] cnt h l lt lm =
      let e : (list.tail == list.tail) ≡ true = ground arith in
      rw e (cnt, h, [], refl, l, Perm.refl [], omega arith, omega arith)
  pass_loop-Passes (suc n) m xs (y ∷ ys) cnt h l lt lm =
      let r = take_run less y ys in
      let split = take-drop less y ys in
      let dr = descents-take_run less y ys in
      let count = runs-drop_run less y ys in
      let y_in = not_tail h list xs ys y l in
      let found = find_end_of_run_lem less h list m xs ys y l (omega arith) in
      elim (List-cases (drop_run less y ys)) [
        | inl e ↦
            (let runs_rest = ap (λ (l : List ℕ). runs less l) e in
              let end : (list.tail == list.tail) ≡ true = ground arith in
              rw (y_in, found, e, end)
                (
                  cnt + 1,
                  h,
                  y ∷ ys,
                  refl,
                  l,
                  Perm.refl (y ∷ ys),
                  omega (arith, count, runs_rest),
                  omega (arith, count, runs_rest),
                ))
        | inr (z, d, e) ↦
            (let runs_rest = ap (λ (l : List ℕ). runs less l) e in
              let ys_is : ys ≡ r ++ z ∷ d = sym split ∙ ap (λ (l : List ℕ). r ++ l) e in
              let lengths : length ys ≡ length r + (1 + length d) =
                ap (λ (l : List ℕ). length l) ys_is ∙ length-append r (z ∷ d) ∙ omega arith in
              let l_y : IsList h list (xs ++ (y ∷ r ++ z ∷ d)) =
                subst (λ q. IsList h list (xs ++ y ∷ q)) ys_is l in
              let d2 = drop_run less z d in
              let (h1, ms, z_in, found2, merged, l1, dm, perm) =
                two_runs m xs r d y z h l_y (omega (arith, lengths, lm)) dr in
              let (cnt', h', zs, run, l', perm', low, high) =
                pass_loop-Passes n m (xs ++ ms) d2 (cnt + 1) h1 l1
                  (omega (arith, lengths, length-run z d))
                  (omega (arith, lengths, length-run z d)) in
              let count2 = runs-drop_run less z d in
              let whole : (y ∷ r ++ z ∷ take_run less z d) ++ d2 ≡ y ∷ ys =
                append_assoc (y ∷ r) (z ∷ take_run less z d) d2
                ∙ ap (λ (l : List ℕ). y ∷ r ++ z ∷ l) (take-drop less z d)
                ∙ ap (λ (l : List ℕ). y ∷ l) (sym ys_is) in
              rw (y_in, found, e, z_in, found2, merged)
                (
                  cnt',
                  h',
                  ms ++ zs,
                  run,
                  subst (λ q. IsList h' list q) (append_assoc xs ms zs) l',
                  subst (λ q. Perm (ms ++ zs) q) whole (Perm.append perm perm'),
                  omega (arith, low, runs-append less ms zs dm),
                  omega (arith, high, count, runs_rest, count2),
                ))
      ]

  -- What sorting makes of a list of `ys`.
  abbrev pub Sorts : List ℕ → Option Elems → Type 0
  Sorts ys r =
      (h' : Elems) × (zs : List ℕ) × (r ≡ some h')
      × IsList h' list zs
      × Perm zs ys
      × (descents less zs ≡ 0)

  one_run : (zs : List ℕ) → runs less zs ≤ 1 → descents less zs ≡ 0
  one_run [] le = refl
  one_run (z ∷ zs) le = omega arith

  sort_loop-Sorts :
      (n m : ℕ) (ys : List ℕ) (h : Elems)
      → IsList h list ys
      → runs less ys < n
      → length ys < m
      → Sorts ys (sort_loop less n m list h)
  unfolding sort_loop
  sort_loop-Sorts zero m ys h l lt lm = absurd (omega arith)
  sort_loop-Sorts (suc n) m ys h l lt lm =
      let begin : list_begin list h ≡ first_of ys list.tail = (neighbours h list [] ys l).0 in
      let (cnt', h', zs, run, l', perm, low, high) = pass_loop-Passes m m [] ys 0 h l lm lm in
      elim (Bool-cases (ltb 1 cnt')) [
        | inr e ↦ rw (begin, run, e) (h', zs, refl, l', perm, one_run zs (ground (arith, e, low)))
        | inl e ↦
            (let (h'', zs', again, l'', perm', d) =
                sort_loop-Sorts n m zs h' l' (ground (arith, e, low, high))
                  (omega (arith, length-perm perm)) in
              rw (begin, run, e) (h'', zs', again, l'', Perm.trans perm' perm, d))
      ]

  runs-le-length : (ys : List ℕ) → runs less ys ≤ length ys
  runs-le-length [] = omega arith
  runs-le-length (y ∷ []) = omega arith
  runs-le-length (y ∷ z ∷ ys) = ground (arith, runs-le-length (z ∷ ys))

  -- Where `less` is asymmetric, `list_sort` of a list ends and fails no assertion, given more fuel
  -- than the list has elements; it leaves a list of the same elements in which none is less than
  -- the one before it.
  pub list_sort-Sorts :
      (m : ℕ) (ys : List ℕ) (h : Elems)
      → IsList h list ys
      → length ys < m
      → Sorts ys (list_sort less m list h)
  unfolding list_sort
  list_sort-Sorts m ys h l lm =
      let (h', zs, run, l', perm, d) =
        sort_loop-Sorts m m ys h l (omega (arith, runs-le-length ys)) lm in
      let begin : list_begin list h' ≡ first_of zs list.tail = (neighbours h' list [] zs l').0 in
      let l0 : IsList h' list ([] ++ (zs ++ [])) =
        subst (λ q. IsList h' list q) (sym (append-nil zs)) l' in
      let sorted = is_sorted_lem less h' list m [] zs [] l0 (omega (arith, length-perm perm)) in
      let first : first_of (zs ++ []) list.tail ≡ first_of zs list.tail =
        ap (λ (l : List ℕ). first_of l list.tail) (append-nil zs) in
      rw (run, begin, sym first, sorted, d) (h', zs, refl, l', perm, d)
