-- ===== src/Structures/HashTable/Moves.antt =====
-- `rehash` moves every element to its new bucket.
use pintos_lab.Base.{
  ℕ, zero, suc, ◌+◌, ◌<◌, ◌≡◌, refl, ap, ◌∙◌, subst, Bool, true, false, ◌&&◌, ◌||◌, List, [], ◌∷◌,
  leb, ltb, ◌==◌, if◌then◌else◌, arith, Bool-cases, inl, inr, length,
}
use pintos_lab.Structures.LinkedList.Linked.{has, Distinct}
use pintos_lab.Structures.HashTable.{push, move_bucket, move_buckets}
use pintos_lab.Structures.HashTable.Counts.{bucket_idx-lt}
use pintos_lab.Structures.HashTable.Members.{Laws, idx, total}

module _ (hash : ℕ → ℕ) (less : ℕ → ℕ → Bool) (laws : Laws hash less) where
  pub total-push :
      (n i j e : ℕ) (buckets : ℕ → List ℕ)
      → total n i (push hash less j e buckets)
        ≡ total n i buckets + (if leb i j && ltb j (i + n) then 1 else 0)
  unfolding total
  total-push zero i j e buckets = ground arith
  total-push (suc n) i j e buckets = ground (arith, total-push n (i + 1) j e buckets)

  pub has-push :
      (cnt e x j : ℕ) (B : ℕ → List ℕ)
      → has x (push hash less (idx hash less laws cnt e) e B j)
        ≡ (has x (B j) || ((e == x) && (idx hash less laws cnt x == j)))
  has-push cnt e x j B = elim (Bool-cases (e == x)) [
    | inl s ↦
        (let same : e ≡ x = ground (arith, s) in
          subst
            (λ y.
              has y (push hash less (idx hash less laws cnt e) e B j)
              ≡ (has y (B j) || ((e == y) && (idx hash less laws cnt y == j))))
            same
            (elim (Bool-cases (idx hash less laws cnt e == j)) [
              | inl q ↦ ground (arith, q)
              | inr q ↦ ground (arith, q)
            ]))
    | inr s ↦ elim (Bool-cases (idx hash less laws cnt e == j)) [
      | inl q ↦ ground (arith, s, q)
      | inr q ↦ ground (arith, s, q)
    ]
  ]

  -- `es` were moved into the buckets `B`, which are now `B'`.
  pub record IsMoved (cnt : ℕ) (es : List ℕ) (B B' : ℕ → List ℕ) : Type 0 where
    pub members :
        (j x : ℕ) → has x (B' j) ≡ (has x (B j) || (has x es && (idx hash less laws cnt x == j)))
    pub once : (j : ℕ) → Distinct (B' j)
    pub size : total cnt 0 B' ≡ total cnt 0 B + length es

  move_bucket-IsMoved :
      (cnt : ℕ) (es : List ℕ) (B : ℕ → List ℕ)
      → 0 < cnt
      → Distinct es
      → ((j : ℕ) → Distinct (B j))
      → ((x j : ℕ) → has x es ≡ true → has x (B j) ≡ false)
      → IsMoved cnt es B (move_bucket hash less cnt es B)
  unfolding move_bucket
  move_bucket-IsMoved cnt [] B pos d once apart = record {
    members = λ j x. ground arith;
    once = once;
    size = omega arith;
  }
  move_bucket-IsMoved cnt (e ∷ es) B pos (n, d) once apart =
      let at = idx hash less laws cnt e in
      let in_range = bucket_idx-lt hash less cnt e pos in
      let B1 = push hash less at e B in
      let fresh : (j : ℕ) → has e (B j) ≡ false = λ j. apart e j (ground arith) in
      let once1 : (j : ℕ) → Distinct (B1 j) = λ j. elim (Bool-cases (at == j)) [
        | inl q ↦ rw q (fresh j, once j)
        | inr q ↦ rw q (once j)
      ] in
      let apart1 : (x j : ℕ) → has x es ≡ true → has x (B1 j) ≡ false =
        λ x j h. ground (arith, h, n, apart x j (ground (arith, h))) in
      let rest = move_bucket-IsMoved cnt es B1 pos d once1 apart1 in
      record {
        members = λ j x. ground (arith, rest.members j x, has-push cnt e x j B);
        once = rest.once;
        size = ground (arith, rest.size, total-push cnt 0 at e B, in_range);
      }

  -- The elements of `old` from bucket `i` on still have to be moved into `B`.
  pub record IsBetween (old_cnt cnt i n : ℕ) (old B : ℕ → List ℕ) : Type 0 where
    pub members :
        (j x : ℕ)
        → has x (B j) ≡ (
            has x (old (idx hash less laws old_cnt x))
            && ltb (idx hash less laws old_cnt x) i
            && (idx hash less laws cnt x == j))
    pub once : (j : ℕ) → Distinct (B j)
    pub size : total cnt 0 B + total n i old ≡ total old_cnt 0 old

  next_members :
      (old_cnt cnt i : ℕ) (old B : ℕ → List ℕ) (j x : ℕ)
      → (has x (old i) ≡ true → i ≡ idx hash less laws old_cnt x)
      → has x (B j) ≡ (
          has x (old (idx hash less laws old_cnt x))
          && ltb (idx hash less laws old_cnt x) i
          && (idx hash less laws cnt x == j))
      → (has x (B j) || (has x (old i) && (idx hash less laws cnt x == j))) ≡ (
          has x (old (idx hash less laws old_cnt x))
          && ltb (idx hash less laws old_cnt x) (i + 1)
          && (idx hash less laws cnt x == j))
  next_members old_cnt cnt i old B j x placed m =
      let o = idx hash less laws old_cnt x in
      elim (Bool-cases (o == i)) [
        | inl q ↦
            (let same : o ≡ i = ground (arith, q) in
              let alike : has x (old o) ≡ has x (old i) = ap (λ (k : ℕ). has x (old k)) same in
              let no : ltb o i ≡ false = ground (arith, same) in
              let yes' : ltb o (i + 1) ≡ true = ground (arith, same) in
              rw (m, no, yes', alike)
                (elim (Bool-cases (has x (old i))) [ inl h ↦ rw h refl | inr h ↦ rw h refl ]))
        | inr q ↦
            (let absent : has x (old i) ≡ false = elim (Bool-cases (has x (old i))) [
              | inr h ↦ h
              | inl h ↦ (let p = placed h in absurd (ground (arith, q, p)))
            ] in
              let bound : ltb o (i + 1) ≡ ltb o i = elim (Bool-cases (ltb o i)) [
                | inl h ↦ ground (arith, h, q)
                | inr h ↦ ground (arith, h, q)
              ] in
              rw (m, absent, bound)
                (elim (Bool-cases (has x (old o) && ltb o i && (idx hash less laws cnt x == j))) [
                  | inl h ↦ rw h refl
                  | inr h ↦ rw h refl
                ]))
      ]

  pub move_buckets-IsBetween :
      (old_cnt cnt n i : ℕ) (old B : ℕ → List ℕ)
      → 0 < cnt
      → ((j x : ℕ) → has x (old j) ≡ true → j ≡ idx hash less laws old_cnt x)
      → ((j : ℕ) → Distinct (old j))
      → IsBetween old_cnt cnt i n old B
      → IsBetween old_cnt cnt (i + n) 0 old (move_buckets hash less cnt n i old B)
  unfolding move_buckets total
  move_buckets-IsBetween old_cnt cnt zero i old B pos placed distinct b =
      subst (λ k. IsBetween old_cnt cnt k 0 old B) (omega arith) b
  move_buckets-IsBetween old_cnt cnt (suc n) i old B pos placed distinct b =
      let apart : (x j : ℕ) → has x (old i) ≡ true → has x (B j) ≡ false =
        λ x j h. ground (arith, b.members j x, placed i x h) in
      let moved = move_bucket-IsMoved cnt (old i) B pos (distinct i) b.once apart in
      let rest =
        move_buckets-IsBetween old_cnt cnt n (i + 1) old (move_bucket hash less cnt (old i) B) pos
          placed distinct
          (record {
            members = λ j x.
                moved.members j x
                ∙ next_members old_cnt cnt i old B j x (placed i x) (b.members j x);
            once = moved.once;
            size = omega (arith, moved.size, b.size);
          }) in
      let shift : i + 1 + n ≡ i + suc n = omega arith in
      subst (λ k. IsBetween old_cnt cnt k 0 old (move_buckets hash less cnt (suc n) i old B)) shift
        rest
