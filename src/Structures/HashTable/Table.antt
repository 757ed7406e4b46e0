-- ===== src/Structures/HashTable/Table.antt =====
-- Insertion and deletion, with the change of the number of buckets behind them.
use pintos_lab.Base.{
  ℕ, zero, suc, ◌+◌, ◌<◌, ◌≡◌, refl, sym, ◌∙◌, subst, Bool, true, false, not, ◌||◌, Option, some,
  ◌==◌, arith, Bool-cases, inl, inr,
}
use pintos_lab.Structures.LinkedList.Linked.{has}
use pintos_lab.Structures.HashTable.{
  HashTable, equal, move_buckets, rehash, empty_buckets, ideal, insert_elem,
}
use pintos_lab.Structures.HashTable.Counts.{round_down_lem, bucket_idx-lt}
use pintos_lab.Structures.HashTable.Members.{Laws, member, idx, IsValid, total}
use pintos_lab.Structures.HashTable.Moves.{total-push, has-push, IsBetween, move_buckets-IsBetween}

module _ (hash : ℕ → ℕ) (less : ℕ → ℕ → Bool) (laws : Laws hash less) where
  -- The table is still valid and has the members given by `m`.
  abbrev pub Keeps : (ℕ → Bool) → Option HashTable → Type 0
  Keeps m r =
      (h' : HashTable) × (r ≡ some h')
      × IsValid hash less laws h'
      × ((x : ℕ) → member hash less laws h' x ≡ m x)

  total-empty : (n i : ℕ) → total n i empty_buckets ≡ 0
  unfolding total
  total-empty zero i = refl
  total-empty (suc n) i = omega (arith, total-empty n (i + 1))

  moved_table :
      (h : HashTable) (cnt : ℕ)
      → 0 < cnt
      → IsValid hash less laws h
      → let h' = record h {
        bucket_cnt = cnt;
        buckets = move_buckets hash less cnt h.bucket_cnt 0 h.buckets empty_buckets;
      } in
        IsValid hash less laws h'
        × ((x : ℕ) → member hash less laws h' x ≡ member hash less laws h x)
  unfolding total
  moved_table h cnt pos v =
      let start : IsBetween hash less laws h.bucket_cnt cnt 0 h.bucket_cnt h.buckets empty_buckets =
        record {
          members = λ j x. ground arith;
          once = λ j. tt;
          size = omega (arith, total-empty cnt 0);
        } in
      let b =
        move_buckets-IsBetween hash less laws h.bucket_cnt cnt h.bucket_cnt 0 h.buckets
          empty_buckets pos v.placed v.once start in
      let h' = record h {
        bucket_cnt = cnt;
        buckets = move_buckets hash less cnt h.bucket_cnt 0 h.buckets empty_buckets;
      } in
      let same : (x : ℕ) → member hash less laws h' x ≡ member hash less laws h x = λ x. ground (
        arith,
        b.members (idx hash less laws cnt x) x,
        bucket_idx-lt hash less h.bucket_cnt x v.some_buckets,
      ) in
      (
        record {
          some_buckets = pos;
          placed = λ i x m. ground (arith, b.members i x, m);
          once = b.once;
          single = λ x y mx my q. v.single x y (sym (same x) ∙ mx) (sym (same y) ∙ my) q;
          sized = v.sized ∙ omega (arith, b.size);
        },
        same,
      )

  pub rehash-Keeps :
      (malloc_ok : Bool) (h : HashTable)
      → IsValid hash less laws h
      → Keeps (member hash less laws h) (rehash hash less malloc_ok h)
  unfolding rehash
  rehash-Keeps malloc_ok h v =
      let n = ideal h.elem_cnt in
      let (cnt, run, pos, le, power) = round_down_lem (n + 1) n (omega arith) (ground arith) in
      elim (Bool-cases ((cnt == h.bucket_cnt) || not malloc_ok)) [
        | inl e ↦ rw (run, e) (h, refl, v, λ x. refl)
        | inr e ↦ (let (v', same) = moved_table h cnt pos v in rw (run, e) (_, refl, v', same))
      ]

  one_new :
      (new : ℕ) (h : HashTable)
      → IsValid hash less laws h
      → ((x : ℕ) → member hash less laws h x ≡ true → equal hash less x new ≡ false)
      → (x y : ℕ) → (member hash less laws h x || (new == x)) ≡ true
      → (member hash less laws h y || (new == y)) ≡ true
      → equal hash less x y ≡ true
      → x ≡ y
  one_new new h v none_of x y mx my q = elim (Bool-cases (new == x)) [
    | inl ex ↦ (elim (Bool-cases (new == y)) [
      | inl ey ↦ ground (arith, ex, ey)
      | inr ey ↦
          (let isx : new ≡ x = ground (arith, ex) in
            let my' : member hash less laws h y ≡ true = ground (arith, my, ey) in
            let q' : equal hash less new y ≡ true =
              subst (λ z. equal hash less z y ≡ true) (sym isx) q in
            absurd (ground (arith, q', none_of y my')))
    ])
    | inr ex ↦
        (let mx' : member hash less laws h x ≡ true = ground (arith, mx, ex) in
          elim (Bool-cases (new == y)) [
            | inl ey ↦
                (let isy : new ≡ y = ground (arith, ey) in
                  let q' : equal hash less x new ≡ true =
                    subst (λ z. equal hash less x z ≡ true) (sym isy) q in
                  absurd (ground (arith, q', none_of x mx')))
            | inr ey ↦ v.single x y mx' (ground (arith, my, ey)) q
          ])
  ]

  pub insert_elem-IsValid :
      (new : ℕ) (h : HashTable)
      → IsValid hash less laws h
      → ((x : ℕ) → member hash less laws h x ≡ true → equal hash less x new ≡ false)
      → IsValid hash less laws (insert_elem hash less new h)
        × ((x : ℕ)
            → member hash less laws (insert_elem hash less new h) x
              ≡ (member hash less laws h x || (new == x)))
  unfolding insert_elem
  insert_elem-IsValid new h v none_of =
      let at = idx hash less laws h.bucket_cnt new in
      let h' = insert_elem hash less new h in
      let same : (x : ℕ) → member hash less laws h' x ≡ (member hash less laws h x || (new == x)) =
        λ x. ground (
          arith,
          has-push hash less laws h.bucket_cnt new x (idx hash less laws h.bucket_cnt x) h.buckets,
        ) in
      let self : equal hash less new new ≡ true = ground (arith, laws.irrefl new) in
      let out : (i : ℕ) → has new (h.buckets i) ≡ false = λ i.
        elim (Bool-cases (has new (h.buckets i))) [
          | inr o ↦ o
          | inl o ↦
              (let m : member hash less laws h new ≡ true =
                  subst (λ k. has new (h.buckets k) ≡ true) (v.placed i new o) o in
                let n = none_of new m in cc)
        ] in
      (
        record {
          some_buckets = v.some_buckets;
          placed = λ i x m.
              ground
                (arith, has-push hash less laws h.bucket_cnt new x i h.buckets, v.placed i x, m);
          once = λ i. elim (Bool-cases (at == i)) [
            | inl q ↦ rw q (out i, v.once i)
            | inr q ↦ rw q (v.once i)
          ];
          single =
              λ x y mx my q. one_new new h v none_of x y (sym (same x) ∙ mx) (sym (same y) ∙ my) q;
          sized = ground (
            arith,
            v.sized,
            total-push hash less laws h.bucket_cnt 0 at new h.buckets,
            bucket_idx-lt hash less h.bucket_cnt new v.some_buckets,
          );
        },
        same,
      )
