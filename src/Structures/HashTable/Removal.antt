-- ===== src/Structures/HashTable/Removal.antt =====
-- What the removal of an element leaves of a table.
use pintos_lab.Base.{
  ℕ, zero, suc, ◌+◌, ◌≡◌, refl, subst, Bool, true, false, not, ◌&&◌, List, [], ◌∷◌, leb, ltb, ◌==◌,
  if◌then◌else◌, arith, Bool-cases, inl, inr, length,
}
use pintos_lab.Structures.LinkedList.Linked.{has, Distinct}
use pintos_lab.Structures.HashTable.{HashTable, remove_elem, remove_first}
use pintos_lab.Structures.HashTable.Counts.{bucket_idx-lt}
use pintos_lab.Structures.HashTable.Members.{Laws, member, idx, IsValid, total}

has-remove_first :
    (x e : ℕ) (es : List ℕ) → Distinct es → has x (remove_first e es) ≡ (has x es && not (e == x))
unfolding remove_first
has-remove_first x e [] d = refl
has-remove_first x e (y ∷ es) (n, d) = elim (Bool-cases (y == e)) [
  | inl q ↦
      (let same : y ≡ e = ground (arith, q) in
        let out : has e es ≡ false = subst (λ z. has z es ≡ false) same n in
        elim (Bool-cases (e == x)) [
          | inl s ↦
              (let is : e ≡ x = ground (arith, s) in
                let out' : has x es ≡ false = subst (λ z. has z es ≡ false) is out in
                rw (q, out') (ground (arith, s)))
          | inr s ↦ rw q (ground (arith, s, same))
        ])
  | inr q ↦ rw q (ground (arith, has-remove_first x e es d, q))
]

Distinct-remove_first : (e : ℕ) (es : List ℕ) → Distinct es → Distinct (remove_first e es)
unfolding remove_first
Distinct-remove_first e [] d = tt
Distinct-remove_first e (y ∷ es) (n, d) = elim (Bool-cases (y == e)) [
  | inl q ↦ rw q d
  | inr q ↦ rw q (ground (arith, has-remove_first y e es d, n), Distinct-remove_first e es d)
]

length-remove_first :
    (e : ℕ) (es : List ℕ) → has e es ≡ true → length (remove_first e es) + 1 ≡ length es
unfolding remove_first
length-remove_first e [] h = cc
length-remove_first e (y ∷ es) h = ground (arith, length-remove_first e es)

total-remove :
    (n i k e : ℕ) (B : ℕ → List ℕ)
    → has e (B k) ≡ true
    → total n i (λ j. if k == j then remove_first e (B j) else B j)
        + (if leb i k && ltb k (i + n) then 1 else 0)
      ≡ total n i B
unfolding total
total-remove zero i k e B h = ground arith
total-remove (suc n) i k e B h = elim (Bool-cases (k == i)) [
  | inl q ↦
      (let same : k ≡ i = ground (arith, q) in
        let h' : has e (B i) ≡ true = subst (λ z. has e (B z) ≡ true) same h in
        ground (arith, q, total-remove n (i + 1) k e B h, length-remove_first e (B i) h'))
  | inr q ↦ ground (arith, q, total-remove n (i + 1) k e B h)
]

module _ (hash : ℕ → ℕ) (less : ℕ → ℕ → Bool) (laws : Laws hash less) where
  has_after :
      (e : ℕ) (h : HashTable)
      → IsValid hash less laws h
      → (j x : ℕ)
      → has x ((remove_elem hash less e h).buckets j) ≡ (has x (h.buckets j) && not (e == x))
  unfolding remove_elem
  has_after e h v j x = elim (Bool-cases (idx hash less laws h.bucket_cnt e == j)) [
    | inl q ↦ rw q (has-remove_first x e (h.buckets j) (v.once j))
    | inr q ↦ rw q (elim (Bool-cases (e == x)) [
      | inr s ↦ ground (arith, s)
      | inl s ↦
          (let is : e ≡ x = ground (arith, s) in
            let out : has e (h.buckets j) ≡ false = elim (Bool-cases (has e (h.buckets j))) [
              | inr o ↦ o
              | inl o ↦ (let p = v.placed j e o in absurd (ground (arith, q, p)))
            ] in
            let out' : has x (h.buckets j) ≡ false =
              subst (λ z. has z (h.buckets j) ≡ false) is out in
            rw out' refl)
    ])
  ]

  pub remove_elem-IsValid :
      (e : ℕ) (h : HashTable)
      → IsValid hash less laws h
      → member hash less laws h e ≡ true
      → IsValid hash less laws (remove_elem hash less e h)
        × ((x : ℕ)
            → member hash less laws (remove_elem hash less e h) x
              ≡ (member hash less laws h x && not (e == x)))
  unfolding remove_elem
  remove_elem-IsValid e h v m =
      let at = idx hash less laws h.bucket_cnt e in
      let h' = remove_elem hash less e h in
      let same : (x : ℕ)
          → member hash less laws h' x ≡ (member hash less laws h x && not (e == x)) =
        λ x. has_after e h v (idx hash less laws h.bucket_cnt x) x in
      (
        record {
          some_buckets = v.some_buckets;
          placed = λ i x q. v.placed i x (ground (arith, has_after e h v i x, q));
          once = λ i. elim (Bool-cases (at == i)) [
            | inl q ↦ rw q (Distinct-remove_first e (h.buckets i) (v.once i))
            | inr q ↦ rw q (v.once i)
          ];
          single = λ x y mx my q.
              v.single x y (ground (arith, same x, mx)) (ground (arith, same y, my)) q;
          sized = ground (
            arith,
            v.sized,
            total-remove h.bucket_cnt 0 at e h.buckets m,
            bucket_idx-lt hash less h.bucket_cnt e v.some_buckets,
          );
        },
        same,
      )
