-- ===== src/Bitmap/Contains.antt =====
-- `bitmap_contains` decides whether a range has a bit of a value.
use pintos_lab.Base.{
  ℕ, zero, suc, ◌+◌, ◌%◌, ◌^◌, ◌≤◌, ◌<◌, ◌≡◌, ◌∙◌, refl, ◌⊎◌, inl, inr, Bool, true, false, not,
  Option, some, arith, leb, if◌then◌else◌, same, Bool-cases, dec_lt, subst,
}
use pintos_lab.Bitmap.{Bitmap, bitmap_test, find_bit, bitmap_contains}
use pintos_lab.Bitmap.View.{IsValid, value_at, test-eq-value_at}

-- The `n` bits from `lo` on are all `value`.
abbrev pub AllAre : Bitmap → ℕ → ℕ → Bool → Type 0
AllAre b lo n value = (j : ℕ) → lo ≤ j → j < lo + n → value_at b j ≡ value

-- What a search for `value` in the `n` bits from `lo` on answers.
abbrev pub Search : Bitmap → ℕ → ℕ → Bool → Option Bool → Type 0
Search b lo n value r =
    ((r ≡ some false) × AllAre b lo n (not value))
    ⊎ ((r ≡ some true) × ((j : ℕ) × (lo ≤ j) × (j < lo + n) × (value_at b j ≡ value)))

pub test-value_at : (b : Bitmap) (i : ℕ) → i < b.bit_cnt → bitmap_test b i ≡ some (value_at b i)
test-value_at b i h = ground (arith, test-eq-value_at b i)

find_bit-suc :
    (n : ℕ) (b : Bitmap) (i : ℕ) (value : Bool)
    → i < b.bit_cnt
    → b.bit_cnt < 2 ^ 32
    → find_bit (suc n) b i value
      ≡ (if same (value_at b i) value then some true else find_bit n b (i + 1) value)
unfolding find_bit
find_bit-suc n b i value h size = ground (arith, test-value_at b i h)

AllAre-cons :
    (b : Bitmap) (lo n : ℕ) (value : Bool)
    → value_at b lo ≡ value
    → AllAre b (lo + 1) n value
    → AllAre b lo (suc n) value
AllAre-cons b lo n value h rest j p q = elim (dec_lt lo j) [
  | yes l ↦ rest j (omega arith) (omega arith)
  | no l ↦ let e : lo ≡ j = omega arith in subst (λ k. value_at b k ≡ value) e h
]

find_bit-Search :
    (n : ℕ) (b : Bitmap) (lo : ℕ) (value : Bool)
    → IsValid b
    → lo + n ≤ b.bit_cnt
    → Search b lo n value (find_bit n b lo value)
find_bit-Search zero b lo value v h = inl (unfold find_bit in refl, λ j p q. absurd (omega arith))
find_bit-Search (suc n) b lo value v h = elim (Bool-cases (same (value_at b lo) value)) [
  | inl hit ↦ inr (
    find_bit-suc n b lo value (omega arith) v.size ∙ ground arith,
    (lo, omega arith, omega arith, ground arith),
  )
  | inr miss ↦ elim (find_bit-Search n b (lo + 1) value v (omega arith)) [
    | inl (e, all) ↦ inl (
      find_bit-suc n b lo value (omega arith) v.size ∙ ground arith,
      AllAre-cons b lo n (not value) (ground arith) all,
    )
    | inr (e, (j, p, q, w)) ↦ inr (
      find_bit-suc n b lo value (omega arith) v.size ∙ ground arith,
      (j, omega arith, omega arith, w),
    )
  ]
]

-- `bitmap_contains` on a range of the bitmap does not panic; it is true exactly if the range has a
-- bit equal to `value`.
pub contains-Search :
    (b : Bitmap) (start cnt : ℕ) (value : Bool)
    → IsValid b
    → start + cnt ≤ b.bit_cnt
    → Search b start cnt value (bitmap_contains b start cnt value)
unfolding bitmap_contains
contains-Search b start cnt value v h =
    let (f, s) : (leb start b.bit_cnt ≡ true) × (leb ((start + cnt) % 2 ^ 32) b.bit_cnt ≡ true) =
      (ground arith, ground (arith, v.size)) in
    rw (f, s) (find_bit-Search cnt b start value v h)
