-- ===== src/Structures/HashTable/Members.antt =====
-- The elements of a valid table, and what finding one answers.
use pintos_lab.Base.{
  bit_and, ℕ, zero, suc, ◌+◌, ◌-◌, ◌<◌, ◌≡◌, ◌⊎◌, refl, sym, ap, ◌∙◌, subst, Bool, true, false,
  Option, none, some, List, [], ◌∷◌, ◌==◌, arith, Bool-cases, inl, inr, length,
}
use pintos_lab.Structures.LinkedList.Linked.{has, Distinct}
use pintos_lab.Structures.HashTable.{HashTable, bucket_idx, equal, find_elem, hash_find}

-- The numbers of elements of `n` buckets from `i` on.
unfoldable pub total : ℕ → ℕ → (ℕ → List ℕ) → ℕ
total zero i buckets = 0
total (suc n) i buckets = length (buckets i) + total n (i + 1) buckets

-- What the functions of the user must satisfy: elements of which neither is less than the other are
-- equal, and equal elements have the same hash.
pub record Laws (hash : ℕ → ℕ) (less : ℕ → ℕ → Bool) : Type 0 where
  pub irrefl : (x : ℕ) → less x x ≡ false
  pub equal_trans :
      (x y z : ℕ)
      → equal hash less x z ≡ true
      → equal hash less y z ≡ true
      → equal hash less x y ≡ true
  pub hash_equal : (x y : ℕ) → equal hash less x y ≡ true → hash x ≡ hash y

module _ (hash : ℕ → ℕ) (less : ℕ → ℕ → Bool) (laws : Laws hash less) where
  abbrev pub idx : ℕ → ℕ → ℕ
  idx cnt e = bucket_idx hash less cnt e

  abbrev pub member : HashTable → ℕ → Bool
  member h x = has x (h.buckets (idx h.bucket_cnt x))

  -- Each element is in its bucket, once, and equal elements are the same.
  pub record IsValid (h : HashTable) : Type 0 where
    pub some_buckets : 0 < h.bucket_cnt
    pub placed : (i x : ℕ) → has x (h.buckets i) ≡ true → i ≡ idx h.bucket_cnt x
    pub once : (i : ℕ) → Distinct (h.buckets i)
    pub single :
        (x y : ℕ) → member h x ≡ true → member h y ≡ true → equal hash less x y ≡ true → x ≡ y
    pub sized : h.elem_cnt ≡ total h.bucket_cnt 0 h.buckets

  find_elem_lem :
      (es : List ℕ) (e : ℕ)
      → ((find_elem hash less es e ≡ none)
          × ((x : ℕ) → has x es ≡ true → equal hash less x e ≡ false))
        ⊎ ((x : ℕ) × (find_elem hash less es e ≡ some x)
            × (has x es ≡ true)
            × (equal hash less x e ≡ true))
  unfolding find_elem
  find_elem_lem [] e = inl (refl, λ x h. cc)
  find_elem_lem (y ∷ es) e = elim (Bool-cases (equal hash less y e)) [
    | inl q ↦ inr (y, rw q refl, ground arith, q)
    | inr q ↦ elim (find_elem_lem es e) [
      | inl (r, none_of) ↦ inl (
        rw q r,
        λ x h. elim (Bool-cases (y == x)) [
          | inl s ↦
              (let same : y ≡ x = ground (arith, s) in
                subst (λ z. equal hash less z e ≡ false) same q)
          | inr s ↦ none_of x (ground (arith, h, s))
        ],
      )
      | inr (x, r, i, t) ↦ inr (x, rw q r, ground (arith, i), t)
    ]
  ]

  -- `hash_find` answers with a member that is equal, or with none, where there is none.
  abbrev pub Finds : HashTable → ℕ → Option ℕ → Type 0
  Finds h e r =
      ((r ≡ none) × ((x : ℕ) → member h x ≡ true → equal hash less x e ≡ false))
      ⊎ ((x : ℕ) × (r ≡ some x) × (member h x ≡ true) × (equal hash less x e ≡ true))

  same_idx : (cnt x e : ℕ) → equal hash less x e ≡ true → idx cnt x ≡ idx cnt e
  same_idx cnt x e q = ap (λ (n : ℕ). bit_and n (cnt - 1)) (laws.hash_equal x e q)

  pub find-Finds : (h : HashTable) (e : ℕ) → Finds h e (hash_find hash less h e)
  unfolding hash_find
  find-Finds h e = elim (find_elem_lem (h.buckets (idx h.bucket_cnt e)) e) [
    | inl (r, none_of) ↦ inl (
      r,
      λ x m. elim (Bool-cases (equal hash less x e)) [
        | inr q ↦ q
        | inl q ↦
            none_of x (subst (λ i. has x (h.buckets i) ≡ true) (same_idx h.bucket_cnt x e q) m)
      ],
    )
    | inr (x, r, i, q) ↦
        inr (x, r, subst (λ j. has x (h.buckets j) ≡ true) (sym (same_idx h.bucket_cnt x e q)) i, q)
  ]

  -- The answer is determined by the members.
  pub find_unique :
      (h : HashTable) (e x : ℕ)
      → IsValid h
      → member h x ≡ true
      → equal hash less x e ≡ true
      → hash_find hash less h e ≡ some x
  find_unique h e x v m q = elim (find-Finds h e) [
    | inl (r, none_of) ↦ (let n = none_of x m in cc)
    | inr (y, r, m', q') ↦
        r ∙ ap (λ (z : ℕ). some z) (v.single y x m' m (laws.equal_trans y x e q' q))
  ]

  pub find_nothing :
      (h : HashTable) (e : ℕ)
      → ((x : ℕ) → member h x ≡ true → equal hash less x e ≡ false)
      → hash_find hash less h e ≡ none
  find_nothing h e none_of = elim (find-Finds h e) [
    | inl (r, n) ↦ r
    | inr (y, r, m', q') ↦ (let n = none_of y m' in cc)
  ]
