-- ===== src/Clib/Stdlib/Finds.antt =====
-- Binary search ends, and finds an element exactly if there is one.
use native.Mathlib.Nat.{mul-add, mul_comm, mul-div_cancel, mul-one, mul-suc, mul-zero}
use pintos_lab.Base.{
  ℕ, zero, suc, ◌+◌, ◌-◌, ◌*◌, ◌/◌, ◌≤◌, ◌<◌, ◌≡◌, ◌≢◌, ◌⊎◌, refl, sym, ap, ◌∙◌, subst, true, false,
  Option, some, ltb, arith, Bool-cases, inl, inr,
}
use pintos_lab.Clib.Strings.{Sign, negative, equal, positive}
use pintos_lab.Clib.Stdlib.{search_loop, binary_search}

Sign-cases : (c : Sign) → (c ≡ negative) ⊎ ((c ≡ positive) ⊎ (c ≡ equal))
Sign-cases negative = inl refl
Sign-cases positive = inr (inl refl)
Sign-cases equal = inr (inr refl)

not_both : negative ≢ equal
not_both = cc

not_both' : positive ≢ equal
not_both' = cc

-- A round of the loop, by the sign of the element in the middle.
module _ (compare : ℕ → Sign) (n size first last middle : ℕ)
    (m : first + (last - first) / size / 2 * size ≡ middle) where
  lower_round :
      ltb first last ≡ true
      → compare middle ≡ negative
      → search_loop compare (suc n) size first last ≡ search_loop compare n size first middle
  unfolding search_loop
  lower_round e c =
      subst
        (λ x.
          compare x ≡ negative
          → search_loop compare (suc n) size first last ≡ search_loop compare n size first x)
        m (λ at. rw (e, at) refl) c

  upper_round :
      ltb first last ≡ true
      → compare middle ≡ positive
      → search_loop compare (suc n) size first last
        ≡ search_loop compare n size (middle + size) last
  unfolding search_loop
  upper_round e c =
      subst
        (λ x.
          compare x ≡ positive
          → search_loop compare (suc n) size first last
            ≡ search_loop compare n size (x + size) last)
        m (λ at. rw (e, at) refl) c

  hit_round :
      ltb first last ≡ true
      → compare middle ≡ equal
      → search_loop compare (suc n) size first last ≡ some middle
  unfolding search_loop
  hit_round e c =
      subst (λ x. compare x ≡ equal → search_loop compare (suc n) size first last ≡ some x) m
        (λ at. rw (e, at) refl) c

  last_round : ltb first last ≡ false → search_loop compare (suc n) size first last ≡ some 0
  unfolding search_loop
  last_round e = rw e refl

-- The address of an element.
abbrev pub elem_at : ℕ → ℕ → ℕ → ℕ
elem_at array size i = array + size * i

module _ (array size : ℕ) (pos : 0 < size) where
  at-add : (i k : ℕ) → elem_at array size i + size * k ≡ elem_at array size (i + k)
  at-add i k = omega (arith, mul-add size i k)

  range_lem : (i k : ℕ) → (elem_at array size (i + k) - elem_at array size i) / size ≡ k
  range_lem i k =
      let apart : elem_at array size (i + k) - elem_at array size i ≡ k * size =
        omega (arith, mul-add size i k, mul_comm k size) in
      ap (λ x. x / size) apart ∙ mul-div_cancel k pos

  middle_lem :
      (i k : ℕ)
      → elem_at array size i + (elem_at array size (i + k) - elem_at array size i) / size / 2 * size
        ≡ elem_at array size (i + k / 2)
  middle_lem i k =
      ap (λ x. elem_at array size i + x / 2 * size) (range_lem i k)
      ∙ ap (λ x. elem_at array size i + x) (mul_comm (k / 2) size)
      ∙ at-add i (k / 2)

  after_lem : (i : ℕ) → elem_at array size i + size ≡ elem_at array size (i + 1)
  after_lem i = omega (arith, mul-add size i 1, mul-one size)

  size-le-mul : (k : ℕ) → size ≤ size * suc k
  size-le-mul k = omega (arith, mul-suc size k)

  nonempty_lem : (i k : ℕ) → ltb (elem_at array size i) (elem_at array size (i + k)) ≡ ltb 0 k
  nonempty_lem i zero = ground (arith)
  nonempty_lem i (suc k) = ground (arith, mul-add size i (suc k), size-le-mul k, pos)

  module _ (compare : ℕ → Sign) where
    -- The signs of the elements: positive ones, then zeroes, then negative ones.
    abbrev pub IsOrdered : ℕ → Type 0
    IsOrdered cnt =
        (i j : ℕ)
        → i ≤ j
        → j < cnt
        → (compare (elem_at array size i) ≡ negative → compare (elem_at array size j) ≡ negative)
          × (compare (elem_at array size j) ≡ positive → compare (elem_at array size i) ≡ positive)

    -- What a search in the elements from `i` up to `j` answers: an equal element, or NULL where
    -- there is none.
    abbrev pub Answers : ℕ → ℕ → Option ℕ → Type 0
    Answers i j r =
        ((k : ℕ) × (i ≤ k)
          × (k < j)
          × (compare (elem_at array size k) ≡ equal)
          × (r ≡ some (elem_at array size k)))
        ⊎ ((r ≡ some 0) × ((k : ℕ) → i ≤ k → k < j → ¬ (compare (elem_at array size k) ≡ equal)))

    search_loop-Answers :
        (n i k cnt : ℕ)
        → IsOrdered cnt
        → i + k ≤ cnt
        → k < n
        → Answers i
            (i + k)
            (search_loop compare n size (elem_at array size i) (elem_at array size (i + k)))
    search_loop-Answers zero i k cnt ord le lt = absurd (omega (arith, lt))
    search_loop-Answers (suc n) i k cnt ord le lt =
        let m = i + k / 2 in
        let at = elem_at array size in
        let mid = middle_lem i k in
        elim (Bool-cases (ltb 0 k)) [
          | inr e ↦ inr (
            last_round compare n size (at i) (at (i + k)) (at m) mid (nonempty_lem i k ∙ e),
            λ q lo hi. absurd (ground (arith, e, lo, hi)),
          )
          | inl e ↦
              (let some_left = nonempty_lem i k ∙ e in
                elim (Sign-cases (compare (at m))) [
                  | inl c ↦
                      (let ih =
                          search_loop-Answers n i (k / 2) cnt ord (omega (arith, le))
                            (ground (arith, lt, e)) in
                        subst (λ r. Answers i (i + k) r)
                          (sym
                            (lower_round compare n size (at i) (at (i + k)) (at m) mid some_left c))
                          (elim ih [
                            | inl (q, lo, hi, eq, r) ↦ inl (q, lo, omega (arith, hi), eq, r)
                            | inr (r, none_of) ↦ inr (
                              r,
                              λ q lo hi eq. elim (Bool-cases (ltb q m)) [
                                | inl low ↦ none_of q lo (ground (arith, low)) eq
                                | inr high ↦ absurd (
                                    not_both (
                                      sym (
                                        (ord m q (ground (arith, high)) (omega (arith, hi, le))).0
                                          c)
                                      ∙ eq))
                              ],
                            )
                          ]))
                  | inr (inl c) ↦
                      (let rest = k - k / 2 - 1 in
                        let ends : m + 1 + rest ≡ i + k = ground (arith, e) in
                        let ih =
                          search_loop-Answers n (m + 1) rest cnt ord (omega (arith, ends, le))
                            (ground (arith, lt, e)) in
                        let ih' =
                          subst
                            (λ b.
                              Answers (m + 1) b (search_loop compare n size (at (m + 1)) (at b)))
                            ends ih in
                        subst (λ r. Answers i (i + k) r)
                          (sym
                            (upper_round compare n size (at i) (at (i + k)) (at m) mid some_left c))
                          (subst
                            (λ b. Answers i (i + k) (search_loop compare n size b (at (i + k))))
                            (sym (after_lem m))
                            (elim ih' [
                              | inl (q, lo, hi, eq, r) ↦ inl (q, omega (arith, lo), hi, eq, r)
                              | inr (r, none_of) ↦ inr (
                                r,
                                λ q lo hi eq. elim (Bool-cases (ltb m q)) [
                                  | inl high ↦ none_of q (ground (arith, high)) hi eq
                                  | inr low ↦ absurd (
                                      not_both' (
                                        sym (
                                          (ord q m (ground (arith, low)) (ground (arith, e, le))).1
                                            c)
                                        ∙ eq))
                                ],
                              )
                            ])))
                  | inr (inr c) ↦ inl (
                    m,
                    omega arith,
                    ground (arith, e),
                    c,
                    hit_round compare n size (at i) (at (i + k)) (at m) mid some_left c,
                  )
                ])
        ]

-- In an array of elements of at least one byte, where those with a positive sign come first and
-- those with a negative sign last, and with more fuel than there are elements, `binary_search`
-- ends. It returns the address of an element that compares equal to the key, or NULL where no
-- element does.
pub binary_search-Answers :
    (array size : ℕ) (pos : 0 < size) (compare : ℕ → Sign) (n cnt : ℕ)
    → IsOrdered array size pos compare cnt
    → cnt < n
    → Answers array size pos compare 0 cnt (binary_search compare n array cnt size)
unfolding binary_search
binary_search-Answers array size pos compare n cnt ord lt =
    let start : elem_at array size 0 ≡ array = omega (arith, mul-zero size) in
    let found = search_loop-Answers array size pos compare n 0 cnt cnt ord (omega arith) lt in
    let whole : 0 + cnt ≡ cnt = omega arith in
    subst
      (λ a.
        Answers array size pos compare 0 cnt
          (search_loop compare n size a (elem_at array size cnt)))
      start
      (subst
        (λ b.
          Answers array size pos compare 0 b
            (search_loop compare n size (elem_at array size 0) (elem_at array size b)))
        whole found)
